-- ===== src/Adapters/Inbox.antt =====
-- `FileInbox` and `UnavailableInbox` of adapters.py. The directory's files have an escalation for
-- their name; a file is created and written in one step.
use vekquorum.Prelude.{
  ℕ, Bool, true, false, Option, none, some, List, ◌∷◌, ◌==◌, find_by, Result, err, vq,
  if◌then◌else◌,
}
use vekquorum.Errors.{Code, rejected}
use vekquorum.Coordinator.Tables.{InboxRequest}
use vekquorum.Stateful.{Method, pure, raise, gets, modify, lift, ◌>>=◌, ◌>>◌}

pub record File : Type 0 where
  pub escalation_id : ℕ
  pub content : ℕ

pub record InboxResponse : Type 0 where
  pub escalation_id : ℕ
  -- the ticket is "file:" and the escalation's identifier
  pub duplicate : Bool

abbrev pub Directory : Type 0
Directory = List File

abbrev pub is_file : ℕ → File → Bool
is_file id f = f.escalation_id == id

-- `os.open` with `O_EXCL`, then the write; the payload is `J(request)`
unfoldable pub create_or_compare : InboxRequest → ℕ → Option File → Method Directory InboxResponse
create_or_compare req payload none = do
  modify (λ (files : Directory).
      (record { escalation_id = req.escalation_id; content = payload }) ∷ files)
  pure (record { escalation_id = req.escalation_id; duplicate = false })
create_or_compare req payload (some f) =
    if f.content == payload
    then pure (record { escalation_id = req.escalation_id; duplicate = true })
    else raise rejected

-- `FileInbox.deliver`
unfoldable pub deliver : (InboxRequest → ℕ) → Result InboxRequest → Method Directory InboxResponse
unfolding create_or_compare
deliver bytes decoded = do
  req ← lift decoded
  existing ← gets (λ (files : Directory). find_by (is_file req.escalation_id) files)
  create_or_compare req (bytes req) existing

-- `UnavailableInbox.deliver`
unfoldable pub unavailable_deliver : Code → Result InboxResponse
unavailable_deliver code = err (vq code)
