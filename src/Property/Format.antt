-- ===== src/Property/Format.antt =====
-- What a property is on the wire (section 2.2.2 of the MQTT v5 standard).
use dimq.Prelude.{
  length-append, suc, ◌≢◌, refl, arith, ℕ, ◌<◌, ◌^◌, ◌≡◌, List, [], ◌∷◌, ◌++◌, length,
}
use dimq.Property.Kinds.{
  none_set, text_pair, variable, two_bytes, text, four_bytes, byte, binary, bin, str, varint,
  unsupported, i32, i16, write_kind, read_kind, length_kind, i8,
}
use dimq.Utf8.Sound.{Encodes}
use dimq.Packet.Format.{format_binary, format_uint32, format_uint16, format_varint}
use dimq.Property.{Property, Value, Kind}

unfoldable pub format_value : Kind → Value → List ℕ → List ℕ
format_value byte (i8 v) name = v ∷ []
format_value two_bytes (i16 v) name = format_uint16 v
format_value four_bytes (i32 v) name = format_uint32 v
format_value variable (varint v) name = format_varint v
format_value text (str s) name = format_binary s
format_value binary (bin s) name = format_binary s
format_value text_pair (str s) name = format_binary name ++ format_binary s
format_value _ _ name = []

-- The value is the member that the kind asks for, and in range.
abbrev pub Fits : Kind → Value → List ℕ → Type 0
Fits byte (i8 v) name = v < 2 ^ 8
Fits two_bytes (i16 v) name = v < 2 ^ 16
Fits four_bytes (i32 v) name = v < 2 ^ 32
Fits variable (varint v) name = v < 2 ^ 28
Fits text (str s) name = (length s < 2 ^ 16) × Encodes s
Fits binary (bin s) name = length s < 2 ^ 16
Fits text_pair (str s) name =
    (length s < 2 ^ 16) × Encodes s × (length name < 2 ^ 16) × Encodes name
Fits _ _ name = ⊥

unfoldable pub format_property : Property → List ℕ
format_property p =
    format_varint p.identifier ++ format_value (read_kind p.identifier) p.value p.name

unfoldable pub format_properties : List Property → List ℕ
format_properties [] = []
format_properties (p ∷ ps) = format_property p ++ format_properties ps

abbrev pub AllFit : List Property → Type 0
AllFit [] = Unit
AllFit (p ∷ ps) = Fits (read_kind p.identifier) p.value p.name × AllFit ps

-- The three switches that matter for the wire agree on every identifier.
pub write_kind-read_kind : (n : ℕ) → write_kind n ≡ read_kind n
unfolding write_kind read_kind
write_kind-read_kind n = refl

pub length_kind-read_kind : (n : ℕ) → length_kind n ≡ read_kind n
unfolding length_kind read_kind
length_kind-read_kind n = ground arith

-- A known identifier is small enough to be written as one byte.
pub read_kind-lt : (n : ℕ) → read_kind n ≢ unsupported → n < 128
unfolding read_kind
read_kind-lt n h = ground arith

pub Fits-supported : (k : Kind) (v : Value) (name : List ℕ) → Fits k v name → k ≢ unsupported
Fits-supported unsupported none_set name h e = h
Fits-supported unsupported (i8 v) name h e = h
Fits-supported unsupported (i16 v) name h e = h
Fits-supported unsupported (i32 v) name h e = h
Fits-supported unsupported (varint v) name h e = h
Fits-supported unsupported (bin v) name h e = h
Fits-supported unsupported (str v) name h e = h
Fits-supported byte v name h e = cc
Fits-supported two_bytes v name h e = cc
Fits-supported four_bytes v name h e = cc
Fits-supported variable v name h e = cc
Fits-supported text v name h e = cc
Fits-supported binary v name h e = cc
Fits-supported text_pair v name h e = cc

length-small_varint : (n : ℕ) → n < 128 → length (format_varint n) ≡ 1
unfolding format_varint
length-small_varint n h = ground arith

-- A property that fits takes one byte more than its value.
pub length-format_property :
    (p : Property)
    → Fits (read_kind p.identifier) p.value p.name
    → length (format_property p)
      ≡ suc (length (format_value (read_kind p.identifier) p.value p.name))
unfolding format_property
length-format_property p h =
    let known = read_kind-lt p.identifier (Fits-supported _ p.value p.name h) in
    omega (
      arith,
      length-append (format_varint p.identifier)
          (format_value (read_kind p.identifier) p.value p.name),
      length-small_varint p.identifier known,
    )

-- The ways in which a value fits.
pub data Fitting : Kind → Value → List ℕ → Type 0 where
  fits_byte : {v : ℕ} {name : List ℕ} → v < 2 ^ 8 → Fitting byte (i8 v) name
  fits_two_bytes : {v : ℕ} {name : List ℕ} → v < 2 ^ 16 → Fitting two_bytes (i16 v) name
  fits_four_bytes : {v : ℕ} {name : List ℕ} → v < 2 ^ 32 → Fitting four_bytes (i32 v) name
  fits_variable : {v : ℕ} {name : List ℕ} → v < 2 ^ 28 → Fitting variable (varint v) name
  fits_text : {s name : List ℕ} → length s < 2 ^ 16 → Encodes s → Fitting text (str s) name
  fits_binary : {s name : List ℕ} → length s < 2 ^ 16 → Fitting binary (bin s) name
  fits_text_pair :
      {s name : List ℕ}
      → length s < 2 ^ 16
      → Encodes s
      → length name < 2 ^ 16
      → Encodes name
      → Fitting text_pair (str s) name

pub Fits-Fitting : (k : Kind) (v : Value) (name : List ℕ) → Fits k v name → Fitting k v name
Fits-Fitting byte none_set name f = elim f [ ]
Fits-Fitting byte (i8 v) name f = fits_byte f
Fits-Fitting byte (i16 v) name f = elim f [ ]
Fits-Fitting byte (i32 v) name f = elim f [ ]
Fits-Fitting byte (varint v) name f = elim f [ ]
Fits-Fitting byte (bin v) name f = elim f [ ]
Fits-Fitting byte (str v) name f = elim f [ ]
Fits-Fitting two_bytes none_set name f = elim f [ ]
Fits-Fitting two_bytes (i8 v) name f = elim f [ ]
Fits-Fitting two_bytes (i16 v) name f = fits_two_bytes f
Fits-Fitting two_bytes (i32 v) name f = elim f [ ]
Fits-Fitting two_bytes (varint v) name f = elim f [ ]
Fits-Fitting two_bytes (bin v) name f = elim f [ ]
Fits-Fitting two_bytes (str v) name f = elim f [ ]
Fits-Fitting four_bytes none_set name f = elim f [ ]
Fits-Fitting four_bytes (i8 v) name f = elim f [ ]
Fits-Fitting four_bytes (i16 v) name f = elim f [ ]
Fits-Fitting four_bytes (i32 v) name f = fits_four_bytes f
Fits-Fitting four_bytes (varint v) name f = elim f [ ]
Fits-Fitting four_bytes (bin v) name f = elim f [ ]
Fits-Fitting four_bytes (str v) name f = elim f [ ]
Fits-Fitting variable none_set name f = elim f [ ]
Fits-Fitting variable (i8 v) name f = elim f [ ]
Fits-Fitting variable (i16 v) name f = elim f [ ]
Fits-Fitting variable (i32 v) name f = elim f [ ]
Fits-Fitting variable (varint v) name f = fits_variable f
Fits-Fitting variable (bin v) name f = elim f [ ]
Fits-Fitting variable (str v) name f = elim f [ ]
Fits-Fitting text none_set name f = elim f [ ]
Fits-Fitting text (i8 v) name f = elim f [ ]
Fits-Fitting text (i16 v) name f = elim f [ ]
Fits-Fitting text (i32 v) name f = elim f [ ]
Fits-Fitting text (varint v) name f = elim f [ ]
Fits-Fitting text (bin v) name f = elim f [ ]
Fits-Fitting text (str v) name f = fits_text f.0 f.1
Fits-Fitting binary none_set name f = elim f [ ]
Fits-Fitting binary (i8 v) name f = elim f [ ]
Fits-Fitting binary (i16 v) name f = elim f [ ]
Fits-Fitting binary (i32 v) name f = elim f [ ]
Fits-Fitting binary (varint v) name f = elim f [ ]
Fits-Fitting binary (bin v) name f = fits_binary f
Fits-Fitting binary (str v) name f = elim f [ ]
Fits-Fitting text_pair none_set name f = elim f [ ]
Fits-Fitting text_pair (i8 v) name f = elim f [ ]
Fits-Fitting text_pair (i16 v) name f = elim f [ ]
Fits-Fitting text_pair (i32 v) name f = elim f [ ]
Fits-Fitting text_pair (varint v) name f = elim f [ ]
Fits-Fitting text_pair (bin v) name f = elim f [ ]
Fits-Fitting text_pair (str v) name f = fits_text_pair f.0 f.1 f.2 f.3
Fits-Fitting unsupported v name f = elim f [ ]
