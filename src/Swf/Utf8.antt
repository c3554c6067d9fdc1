-- ===== src/Swf/Utf8.antt =====
-- `std::str::from_utf8`: which byte sequences are the bytes of a `&str`.
use ruffle.Prelude.{ℕ, zero, suc, Bool, true, false, List, leb, ltb, if◌then◌else◌, ◌&&◌}
use mathlib.Core.List.{foldl}

-- Between two characters; or inside one, with so many bytes to come and a range for the next.
pub data Scan : Type 0 where
  between : Scan
  inside : ℕ → ℕ → ℕ → Scan
  broken : Scan

-- The first byte of a character says how many follow, and narrows the second.
lead : ℕ → Scan
lead b =
    if ltb b 0x80
    then between
    else if ltb b 0xc2
    then broken
    else if ltb b 0xe0
    then inside 0 0x80 0xbf
    else if leb b 0xe0
    then inside 1 0xa0 0xbf
    else if ltb b 0xed
    then inside 1 0x80 0xbf
    else if leb b 0xed
    then inside 1 0x80 0x9f
    else if ltb b 0xf0
    then inside 1 0x80 0xbf
    else if leb b 0xf0
    then inside 2 0x90 0xbf
    else if ltb b 0xf4
    then inside 2 0x80 0xbf
    else if leb b 0xf4
    then inside 2 0x80 0x8f
    else broken

scan_byte : Scan → ℕ → Scan
unfolding lead
scan_byte between b = lead b
scan_byte (inside zero lo hi) b = if leb lo b && leb b hi then between else broken
scan_byte (inside (suc n) lo hi) b = if leb lo b && leb b hi then inside n 0x80 0xbf else broken
scan_byte broken b = broken

scan_end : Scan → Bool
scan_end between = true
scan_end _ = false

unfoldable pub is_utf8 : List ℕ → Bool
unfolding scan_byte scan_end
is_utf8 bytes = scan_end (foldl scan_byte between bytes)
