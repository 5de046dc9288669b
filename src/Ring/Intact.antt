-- ===== src/Ring/Intact.antt =====
-- Frames that a pop accepts, and that a push makes only such.
use lzamp.Base.{◌≡◌, refl, sym, ◌∙◌, false, List, [], ◌∷◌, ◌++◌, arith}
use lzamp.Protocol.{Message, frame_crc32, frame_bytes}
use lzamp.Protocol.RingResult
use lzamp.Ring.{is_bad_header, sealed, classify}
use lzamp.Ring.Queue.{committed}

pub record IsIntact (m : Message) : Type 0 where
  pub complete : m.commit ≡ m.sequence
  pub accepted : classify m ≡ RingResult.ok

abbrev pub AllIntact : List Message → Type 0
AllIntact [] = Unit {0}
AllIntact (m ∷ q) = IsIntact m × AllIntact q

pub AllIntact-append : (q r : List Message) → AllIntact q → AllIntact r → AllIntact (q ++ r)
AllIntact-append [] r hq hr = hr
AllIntact-append (m ∷ q) r hq hr = (hq.0, AllIntact-append q r hq.1 hr)

-- The CRC covers neither the CRC word nor the commit word.
pub frame_crc32-committed :
    (m : Message) → frame_crc32 (committed m) ≡ frame_crc32 (record m { commit = 0 })
unfolding frame_crc32 frame_bytes committed sealed
frame_crc32-committed m = refl

pub classify-ok :
    (m : Message) → is_bad_header m ≡ false → m.crc32 ≡ frame_crc32 m → classify m ≡ RingResult.ok
unfolding classify
classify-ok m good e = ground arith

-- A frame made by a push passes every check of a pop.
pub committed-IsIntact : (m : Message) → is_bad_header m ≡ false → IsIntact (committed m)
committed-IsIntact m good = record { complete = kept; accepted = passes }
  where
    kept : (committed m).commit ≡ (committed m).sequence
    kept = unfold committed sealed in refl

    crc_kept : (committed m).crc32 ≡ frame_crc32 (record m { commit = 0 })
    crc_kept = unfold committed sealed in refl

    header_kept : is_bad_header (committed m) ≡ is_bad_header m
    header_kept = unfold committed sealed is_bad_header in refl

    passes : classify (committed m) ≡ RingResult.ok
    passes =
        classify-ok (committed m) (header_kept ∙ good) (crc_kept ∙ sym (frame_crc32-committed m))
