-- ===== src/Adapters/Deliveries.antt =====
-- Repeated deliveries to the file inbox (adapters.py).
use vekquorum.Prelude.{
  ℕ, ◌≡◌, refl, true, Option, none, some, List, [], ◌∷◌, find_by, Result, ok, err, arith,
}
use vekquorum.Coordinator.Tables.{InboxRequest}
use vekquorum.Stateful.{◌>>=◌}
use vekquorum.Adapters.Inbox.{Directory, File, InboxResponse, create_or_compare, deliver, is_file}

-- the directory after some deliveries, which may have raised
unfoldable pub after_all : (InboxRequest → ℕ) → List (Result InboxRequest) → Directory → Directory
after_all bytes [] fs = fs
after_all bytes (q ∷ qs) fs = after_all bytes qs (deliver bytes q fs).1

-- Every file stays as it was written.
abbrev Stays : Directory → Directory → Type 0
Stays fs fs' =
    (id : ℕ) (f : File) → find_by (is_file id) fs ≡ some f → find_by (is_file id) fs' ≡ some f

module _ (bytes : InboxRequest → ℕ) where
  created-Stays :
      (req : InboxRequest) (existing : Option File) (fs : Directory)
      → find_by (is_file req.escalation_id) fs ≡ existing
      → Stays fs (create_or_compare req (bytes req) existing fs).1
  unfolding create_or_compare ◌>>=◌
  created-Stays req none fs e id f g = ground arith
  created-Stays req (some x) fs e id f g = ground arith

  deliver-Stays : (q : Result InboxRequest) (fs : Directory) → Stays fs (deliver bytes q fs).1
  unfolding deliver ◌>>=◌
  deliver-Stays (ok req) fs id f g = created-Stays req _ fs refl id f g
  deliver-Stays (err c) fs id f g = g

  after_all-Stays :
      (qs : List (Result InboxRequest)) (fs : Directory) → Stays fs (after_all bytes qs fs)
  unfolding after_all
  after_all-Stays [] fs id f g = g
  after_all-Stays (q ∷ qs) fs id f g =
      after_all-Stays qs (deliver bytes q fs).1 id f (deliver-Stays q fs id f g)

  -- what a delivery that returns has left
  delivered :
      (req : InboxRequest) (existing : Option File) (fs : Directory) {r : InboxResponse}
      → find_by (is_file req.escalation_id) fs ≡ existing
      → (create_or_compare req (bytes req) existing fs).0 ≡ ok r
      → (f : File) × (find_by
            (is_file req.escalation_id)
            (create_or_compare req (bytes req) existing fs).1
          ≡ some f)
        × (f.content ≡ bytes req)
  unfolding create_or_compare ◌>>=◌
  delivered req none fs e h =
      (record { escalation_id = req.escalation_id; content = bytes req }, ground arith, refl)
  delivered req (some f) fs e h = (f, ground arith, ground arith)

  repeated :
      (req : InboxRequest) (existing : Option File) (fs : Directory) (f : File)
      → existing ≡ some f
      → f.content ≡ bytes req
      → create_or_compare req (bytes req) existing fs
        ≡ (ok (record { escalation_id = req.escalation_id; duplicate = true }), fs)
  unfolding create_or_compare ◌>>=◌
  repeated req none fs f e h = cc
  repeated req (some g) fs f e h = ground arith

  -- A request that was delivered is a duplicate whenever it is delivered again, after any other
  -- deliveries, and nothing changes then.
  pub deliver-repeats :
      (req : InboxRequest) (fs : Directory) (qs : List (Result InboxRequest)) {r : InboxResponse}
      → (deliver bytes (ok req) fs).0 ≡ ok r
      → let fs' = after_all bytes qs (deliver bytes (ok req) fs).1 in
        deliver bytes (ok req) fs'
        ≡ (ok (record { escalation_id = req.escalation_id; duplicate = true }), fs')
  unfolding deliver ◌>>=◌
  deliver-repeats req fs qs {r} e =
      let (f, found, same) =
        delivered req (find_by (is_file req.escalation_id) fs) fs {r = r} refl e in
      repeated req _ (after_all bytes qs (deliver bytes (ok req) fs).1) f
        (after_all-Stays qs (deliver bytes (ok req) fs).1 req.escalation_id f found) same
