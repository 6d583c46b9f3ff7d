-- ===== src/Property/Built.antt =====
-- The lists that `dimq_property_add_*` build, and what is found in them.
use dimq.Prelude.{
  inr, inl, if◌then◌else◌, ltb, sym, subst, take-length, ℕ, ◌<◌, ◌≤◌, ◌^◌, ◌≡◌, ◌≢◌, Bool, true,
  false, List, [], ◌∷◌, ◌++◌, Option, none, some, length, arith, refl,
}
use dimq.Packet.Safe.{AllBytes-join}
use dimq.Result.{nomem, inval, Result, ok, err, fault}
use native.Mathlib.Decide.{dec_lt}
use dimq.Utf8.Spec.{encode_all}
use dimq.Property.Kinds.{text, Property, i8, i16, i32, varint, bin, str, read_kind}
use dimq.Word.{u16}
use dimq.Property.Build.{
  add, add_byte, add_int16, add_int32, add_varint, add_binary, add_string, built, stored,
  get_property, string_identifiers,
}
use dimq.Property.Format.{AllFit, Fits}
use dimq.Property.Check.{has_identifier}
use dimq.Property.Ids.{one_of}
use dimq.Packet.{Heap}
use dimq.Utf8.Sound.{AllBytes, Encodes}
use dimq.Utf8.Decides.{validate_utf8_decides}
use dimq.Utf8.{validate_utf8}

AllFit-add :
    (ps : List Property) (p : Property)
    → AllFit ps
    → Fits (read_kind p.identifier) p.value p.name
    → AllFit (add ps p)
unfolding add
AllFit-add [] p f g = (g, tt)
AllFit-add (q ∷ ps) p f g = (f.0, AllFit-add ps p f.1 g)

-- No fault; and where a list is returned, its properties fit their identifiers.
abbrev pub FitsAfter : Result (List Property) → Type 0
FitsAfter (ok ps) = AllFit ps
FitsAfter (err e) = Unit
FitsAfter fault = ⊥

module _ (ps : List Property) (n : ℕ) (heap : Heap) (fit : AllFit ps) where
  add_byte-FitsAfter : (b : ℕ) → b < 2 ^ 8 → FitsAfter (add_byte (some ps) n b heap)
  unfolding add_byte read_kind
  add_byte-FitsAfter b h = ground (arith, AllFit-add ps (built n (i8 b) []) fit)

  add_int16-FitsAfter : (w : ℕ) → w < 2 ^ 16 → FitsAfter (add_int16 (some ps) n w heap)
  unfolding add_int16 read_kind
  add_int16-FitsAfter w h = ground (arith, AllFit-add ps (built n (i16 w) []) fit)

  add_int32-FitsAfter : (d : ℕ) → d < 2 ^ 32 → FitsAfter (add_int32 (some ps) n d heap)
  unfolding add_int32 read_kind
  add_int32-FitsAfter d h = ground (arith, AllFit-add ps (built n (i32 d) []) fit)

  add_varint-FitsAfter : (v : ℕ) → FitsAfter (add_varint (some ps) n v heap)
  unfolding add_varint read_kind
  add_varint-FitsAfter v = ground (arith, AllFit-add ps (built n (varint v) []) fit)

  add_binary-FitsAfter :
      (s : List ℕ) → length s < 2 ^ 16 → FitsAfter (add_binary (some ps) n s heap)
  unfolding add_binary read_kind
  add_binary-FitsAfter s h =
      ground
        (arith, AllFit-add ps (built n (bin s) []) fit, AllFit-add ps (built n (bin []) []) fit)

-- On a list whose properties fit their identifiers, and for any identifier, value of the parameter's
-- type and answers of the allocator, the five functions for numbers and binary data either fail or
-- return a list whose properties fit their identifiers.
pub add_values-FitsAfter :
    (ps : List Property) (n b w d v : ℕ) (s : List ℕ) (heap : Heap)
    → AllFit ps
    → b < 2 ^ 8
    → w < 2 ^ 16
    → d < 2 ^ 32
    → length s < 2 ^ 16
    → FitsAfter (add_byte (some ps) n b heap)
      × FitsAfter (add_int16 (some ps) n w heap)
      × FitsAfter (add_int32 (some ps) n d heap)
      × FitsAfter (add_varint (some ps) n v heap)
      × FitsAfter (add_binary (some ps) n s heap)
add_values-FitsAfter ps n b w d v s heap fit hb hw hd hs = (
  add_byte-FitsAfter ps n heap fit b hb,
  add_int16-FitsAfter ps n heap fit w hw,
  add_int32-FitsAfter ps n heap fit d hd,
  add_varint-FitsAfter ps n heap fit v,
  add_binary-FitsAfter ps n heap fit s hs,
)

-- A property that is added last is found, where the list has no other with its identifier.
pub get_property-add :
    (ps : List Property) (p : Property) (n : ℕ)
    → has_identifier n ps ≡ false
    → p.identifier ≡ n
    → get_property (add ps p) n false ≡ some (p, [])
unfolding get_property add has_identifier
get_property-add [] p n h e = ground arith
get_property-add (q ∷ ps) p n h e = ground (arith, get_property-add ps p n)

abbrev pub behind : Property → Option (Property × List Property) → Option (Property × List Property)
behind p none = none
behind p (some (q, rest)) = some (q, add rest p)

-- A search for another identifier finds what it found before, now with the new property behind it.
pub get_property-add_other :
    (ps : List Property) (p : Property) (n : ℕ) (skip_first : Bool)
    → p.identifier ≢ n
    → get_property (add ps p) n skip_first ≡ behind p (get_property ps n skip_first)
unfolding get_property add
get_property-add_other [] p n skip_first h = ground arith
get_property-add_other (q ∷ ps) p n skip_first h =
    ground
      (arith, get_property-add_other ps p n skip_first h, get_property-add_other ps p n false h)

text_kind : (n : ℕ) → one_of n string_identifiers ≡ true → read_kind n ≡ text
unfolding read_kind
text_kind n h = ground arith

Fits-text :
    (n : ℕ) (s name : List ℕ)
    → one_of n string_identifiers ≡ true
    → length s < 2 ^ 16
    → Encodes s
    → Fits (read_kind n) (str s) name
Fits-text n s name h l e = subst (λ k. Fits k (str s) name) (sym (text_kind n h)) (l, e)

Encodes-empty : Encodes []
Encodes-empty = ([], tt, unfold encode_all in refl)

-- What is stored is the text, or nothing of it where its length does not fit a uint16_t.
stored-Encodes :
    (s : List ℕ) → length s ≤ 65536 → Encodes s → (length (stored s) < 2 ^ 16) × Encodes (stored s)
stored-Encodes s l e = elim (dec_lt (length s) 65536) [
  | yes h ↦ let same : u16 (length s) ≡ length s = omega arith in rw (same, take-length s) (h, e)
  | no h ↦
      let zero_long : u16 (length s) ≡ 0 = omega arith in rw zero_long (omega arith, Encodes-empty)
]

abbrev pub AddedText : List Property → ℕ → List ℕ → Result (List Property) → Type 0
AddedText ps n s (ok qs) = Encodes s × AllFit qs × (qs ≡ add ps (built n (str (stored s)) []))
AddedText ps n s (err e) = Unit
AddedText ps n s fault = ⊥

-- `dimq_property_add_string` with a string of bytes, for any identifier and answers of the allocator:
-- it either fails or appends one property with the string, which is then well-formed text of allowed
-- characters, and every property of the list fits its identifier.
pub add_string-AddedText :
    (ps : List Property) (n : ℕ) (s : List ℕ) (heap : Heap)
    → AllFit ps
    → AllBytes s
    → AddedText ps n s (add_string (some ps) n (some s) heap)
unfolding add_string
add_string-AddedText ps n s heap fit bytes = elim (dec_lt 65536 (length s)) [
  | yes long ↦ rw (validate_utf8-long s long) tt
  | no short ↦
      let whole = AllBytes-join s (0 ∷ []) bytes (omega arith) in
      elim (validate_utf8_decides s [] whole (omega arith)) [
        | inl (valid, enc) ↦ rw valid (filled enc (stored-Encodes s (omega arith) enc) heap)
        | inr (invalid, _) ↦ rw invalid tt
      ]
]
  where
    validate_utf8-long :
        (s : List ℕ) → 65536 < length s → validate_utf8 (some (s ++ 0 ∷ [])) (length s) ≡ err inval
    validate_utf8-long s long = unfold validate_utf8 in ground arith

    empty_stored : (s : List ℕ) → ltb 0 (length s) ≡ false → stored s ≡ []
    empty_stored s h = ground arith

    filled :
        Encodes s
        → (length (stored s) < 2 ^ 16) × Encodes (stored s)
        → (heap : Heap)
        → AddedText ps n s (
            if one_of n string_identifiers
            then (if heap 0
                then (if ltb 0 (length s)
                    then (if heap 1 then ok (add ps (built n (str (stored s)) [])) else err nomem)
                    else ok (add ps (built n (str []) [])))
                else err nomem)
            else err inval)
    filled enc (l, e) heap = ground (
      arith,
      AllFit-add ps (built n (str (stored s)) []) fit,
      Fits-text n (stored s) [],
      empty_stored s,
    )
