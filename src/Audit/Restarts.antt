-- ===== src/Audit/Restarts.antt =====
-- s3.go: writers that record one after the other, each starting where the one before stopped.
use mcp_gateway_w.Prelude.{ℕ, List, [], ◌∷◌, Option, none, some, ℤ, if◌then◌else◌}
use mcp_gateway_w.Audit.{Event, Record, Digest, append_record}
use mcp_gateway_w.Audit.Archive.{Bucket, Archive, new_s3_archive, record_event}

-- An event is recorded, with the clock's two readings, or a new writer takes over.
pub data Op : Type 0 where
  records : ℕ → ℕ → Event → Op
  restarts : Op

-- The log in memory of the same events.
unfoldable pub in_memory : Digest → List Record → List Op → List Record
in_memory d rs [] = rs
in_memory d rs (records t t' e ∷ os) = in_memory d (append_record d t rs e) os
in_memory d rs (restarts ∷ os) = in_memory d rs os

module _ {W J : Type 0} (b : Bucket W J) (d : Digest) (retention : ℤ) where
  -- `none` is the first error.
  unfoldable pub run : List Op → Archive → W → Option (Archive × W)
  unfolding record_event new_s3_archive
  run [] a w = some (a, w)
  run (records t t' e ∷ os) a w =
      let (ok, a1, w1) = record_event b d t t' a w e in
      let rest = run os a1 w1 in if ok then rest else none
  run (restarts ∷ os) a w =
      let (o, w1) = new_s3_archive b w retention in elim o [ none ↦ none | some a1 ↦ run os a1 w1 ]
