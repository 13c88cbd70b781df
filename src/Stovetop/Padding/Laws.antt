-- ===== src/Stovetop/Padding/Laws.antt =====
-- Which bytes behind a payload are padding.
use marlinspike_dpi.Prelude.{ℕ, ◌-◌, List, if◌then◌else◌, ltb, length, take}

-- What stands behind the payload, up to the 46th byte where the payload is shorter than that.
abbrev pub padding_bytes : List ℕ → List ℕ → List ℕ
padding_bytes content rest =
    if ltb (length content) 46 then take (46 - length content) rest else rest
