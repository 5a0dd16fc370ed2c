-- ===== src/RabbitMq/SendorCfg/Lookup.antt =====
-- bingo/RabbitMQ/config/rb_sendor_cfg.cpp: which values a file gives, and how they are found.
use Prim.Native.String.{String}
use bingo_v.Prelude.{
  ℕ, ◌≤◌, ◌≡◌, Bool, true, false, Option, none, some, List, [], ◌∷◌, if◌then◌else◌, length, All,
  arith,
}
use bingo_v.ErrorWhat.{ErrorWhat}
use bingo_v.Bytes.{Bytes, c_str, same}
use bingo_v.Configuration.{Node, Found}
use bingo_v.Configuration.Checks.{Checked, ok, bad, thrown}
use bingo_v.RabbitMq.Config.{mapkey_max_size, Casts}
use bingo_v.RabbitMq.SendorCfg.{
  RbSendorCfgValue, RbSendorCfg, Values, is_sendor_type, check_item, verdict, read_xml,
  rb_sendor_cfg, get_by_key,
}
use bingo_v.PtrMap.{find}
use bingo_v.PtrMap.Keys.{IsSorted, or_else}

-- A key of 40 bytes at most, with a value of a sender's type that knows the key and has no channel yet.
abbrev pub IsAccepted : Bytes × RbSendorCfgValue → Type 0
IsAccepted p =
    (length p.0 ≤ mapkey_max_size)
    × (is_sendor_type p.1.type ≡ true)
    × (p.1.map_key ≡ c_str p.0)
    × (p.1.channel ≡ none)

-- The same of what a round gives, if it adds a value.
abbrev AddsAccepted : Option (Bytes × RbSendorCfgValue) → Type 0
AddsAccepted none = Unit
AddsAccepted (some p) = IsAccepted p

module _ (casts : Casts) where
  choose :
      Bytes
      → Checked (Option (Bytes × RbSendorCfgValue))
      → Option RbSendorCfgValue
      → Option RbSendorCfgValue
  choose k (ok (some (j, v))) later = if same j k then some v else later
  choose k (ok none) later = later
  choose k (bad s) later = later
  choose k thrown later = later

  -- The value of the first item that check_item takes for a key.
  pub first_item : Bytes → List Node → Option RbSendorCfgValue
  unfolding choose
  first_item k [] = none
  first_item k (item ∷ items) = choose k (check_item casts item) (first_item k items)

  -- The values of a file: in order, accepted, and for each key that of the first item.
  abbrev AreFirst : List Node → Values → Values → Type 0
  AreFirst items m m' =
      IsSorted m'
      × All IsAccepted m'
      × ((k : Bytes) → find k m' ≡ or_else (find k m) (first_item k items))

  -- What a configuration that was read is: valid, with keys in order and accepted values, and
  -- get_by_key gives for each key the value of the first item with that key.
  abbrev pub IsRead : List Node → RbSendorCfg → Type 0
  IsRead items c =
      (c.is_valid ≡ true)
      × IsSorted c.values
      × All IsAccepted c.values
      × ((k : Bytes) → get_by_key c k ≡ first_item k items)

  -- The number of the error of a file that cannot be read, and of one that fails its check.
  abbrev pub failure_number : Option Found → ℕ
  failure_number none = 0x60
  failure_number (some f) = 0x61

  verdict_fails :
      (r : Option (RbSendorCfg × Bool)) (c : RbSendorCfg)
      → verdict casts r ≡ some (c, false)
      → (c.is_valid ≡ false) × (c.err.number ≡ 0x61)
  unfolding verdict
  verdict_fails none c h = absurd (ground (arith, h))
  verdict_fails (some (d, true)) c h = absurd (ground (arith, h))
  verdict_fails (some (d, false)) c h = (ground (arith, h), ground (arith, h))

  -- When read_xml of a new configuration returns false, the configuration is not valid, and the number
  -- of the error is 0x60 if the file was not read and 0x61 if it failed its check.
  pub read_xml-fails :
      (file : Option Found) (e : ErrorWhat) (c : RbSendorCfg)
      → read_xml casts rb_sendor_cfg file e ≡ some (c, false)
      → (c.is_valid ≡ false) × (c.err.number ≡ failure_number file)
  unfolding read_xml rb_sendor_cfg
  read_xml-fails none e c h = (ground (arith, h), ground (arith, h))
  read_xml-fails (some f) e c h = verdict_fails _ c h
