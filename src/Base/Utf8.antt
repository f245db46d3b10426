-- ===== src/Base/Utf8.antt =====
-- `str::from_utf8`: the code points of a byte string, or none where it is not valid UTF-8. The
-- decoder accepts no overlong form, no surrogate and nothing past U+10FFFF.
use package.pocket_vault.Base.Tests.{ltb, in_range, if◌then◌else◌}
use package.pocket_vault.Base.Words.{Bytes}
use mathlib.Core.Option
use mathlib.Core.Option.{Option, none, some}
use mathlib.Core.List.{List, [], ◌∷◌}
use Prim.Native.Nat.{ℕ, zero, suc, ◌+◌, ◌-◌, ◌*◌}

-- Between two code points, or inside one: the continuation bytes that follow the next, the range of
-- the next, and the bits read so far.
pub data Decoder : Type 0 where
  ready : Decoder
  inside : ℕ → ℕ → ℕ → ℕ → Decoder

abbrev pub lead : ℕ → Option (Decoder × Option ℕ)
lead byte =
    if ltb byte 0x80
    then some (ready, some byte)
    else if in_range 0xC2 0xDF byte
    then some (inside 0 0x80 0xBF (byte - 0xC0), none)
    else if in_range 0xE0 0xEF byte
    then some (
      inside 1 (if in_range 0xE0 0xE0 byte then 0xA0 else 0x80)
          (if in_range 0xED 0xED byte then 0x9F else 0xBF) (byte - 0xE0),
      none,
    )
    else if in_range 0xF0 0xF4 byte
    then some (
      inside 2 (if in_range 0xF0 0xF0 byte then 0x90 else 0x80)
          (if in_range 0xF4 0xF4 byte then 0x8F else 0xBF) (byte - 0xF0),
      none,
    )
    else none

abbrev pub decode_byte : Decoder → ℕ → Option (Decoder × Option ℕ)
decode_byte ready byte = lead byte
decode_byte (inside zero lo hi bits) byte =
    if in_range lo hi byte then some (ready, some (bits * 64 + (byte - 0x80))) else none
decode_byte (inside (suc more) lo hi bits) byte =
    if in_range lo hi byte
    then some (inside more 0x80 0xBF (bits * 64 + (byte - 0x80)), none)
    else none

abbrev pub emit : Option ℕ → Option (List ℕ) → Option (List ℕ)
emit none rest = rest
emit (some c) rest = Option.map (λ cs. c ∷ cs) rest

unfoldable pub decode_from : Decoder → Bytes → Option (List ℕ)
decode_from ready [] = some []
decode_from (inside more lo hi bits) [] = none
decode_from state (byte ∷ bytes) = elim (decode_byte state byte) [
  | none ↦ none
  | some (state', out) ↦ emit out (decode_from state' bytes)
]

unfoldable pub from_utf8 : Bytes → Option (List ℕ)
unfolding decode_from
from_utf8 = decode_from ready
