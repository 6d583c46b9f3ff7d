-- ===== src/Property/Accessed.antt =====
-- The accessors on lists that were built or read, and after `dimq_property_add_*`.
use dimq.Prelude.{
  subst, inr, refl, inl, Bool-cases, ℕ, ◌≡◌, ◌≢◌, ◌==◌, Bool, true, false, List, [], ◌∷◌, Option,
  some, Option-cases, arith,
}
use dimq.Property.Access.{
  Found, search, get_i8, get_i16, get_i32, get_varint, copy_bin, copy_str, copy_pair,
  property_read_byte, property_read_int16, property_read_int32, property_read_varint,
  property_read_binary, property_read_string, property_read_string_pair,
}
use dimq.Property.Build.{add_byte, add_int16, add_int32, add_varint, built, get_property}
use dimq.Property.Built.{get_property-add}
use dimq.Property.Format.{
  AllFit, Fits, Fitting, Fits-Fitting, fits_byte, fits_two_bytes, fits_four_bytes, fits_variable,
  fits_text, fits_binary, fits_text_pair,
}
use dimq.Property.Kinds.{
  Property, Value, i8, i16, i32, varint, read_kind, byte, two_bytes, four_bytes, variable, text,
  binary, text_pair,
}
use dimq.Property.Check.{has_identifier}
use dimq.Packet.{Heap}
use dimq.Result.{ok, fault, ◌>>=◌}

get_property-Fits :
    (ps : List Property) (n : ℕ) (skip : Bool) (p : Property) (rest : List Property)
    → AllFit ps
    → get_property ps n skip ≡ some (p, rest)
    → Fits (read_kind p.identifier) p.value p.name
unfolding get_property
get_property-Fits [] n skip p rest f e = cc
get_property-Fits (q ∷ ps) n skip p rest f e = elim (Bool-cases (q.identifier == n)) [
  | inl t ↦ elim (Bool-cases skip) [
    | inl s ↦ get_property-Fits ps n false p rest f.1 (rw (t, s) at e)
    | inr s ↦
        subst (λ r. Fits (read_kind r.identifier) r.value r.name)
          (found q p ps rest (rw (t, s) at e)) f.0
  ]
  | inr t ↦ get_property-Fits ps n skip p rest f.1 (rw t at e)
]
  where
    found :
        (q p : Property) (ps rest : List Property)
        → ◌≡◌ {A = Option (Property × List Property)} (some (q, ps)) (some (p, rest))
        → q ≡ p
    found q p ps rest e = ground arith

search-ne-fault :
    {A : Type 0} (ps : List Property) (n : ℕ) (skip : Bool) (k : Property → List Property → Found A)
    → AllFit ps
    → ((p : Property) (rest : List Property)
        → Fits (read_kind p.identifier) p.value p.name
        → k p rest ≢ fault)
    → search (get_property ps n skip) k ≢ fault
search-ne-fault ps n skip k f h = elim (Option-cases (get_property ps n skip)) [
  | inl e ↦ rw e (λ q. cc)
  | inr ((p, rest), e) ↦ rw e (h p rest (get_property-Fits ps n skip p rest f e))
]

module _ (p : Property) (rest : List Property) where
  get_i8-ne-fault : Fits byte p.value p.name → get_i8 p rest ≢ fault
  get_i8-ne-fault f = go (Fits-Fitting byte p.value p.name f)
    where
      go :
          {v : Value} {name : List ℕ}
          → Fitting byte v name
          → get_i8 (record p { value = v }) rest ≢ fault
      go (fits_byte l) e = cc

  get_i16-ne-fault : Fits two_bytes p.value p.name → get_i16 p rest ≢ fault
  get_i16-ne-fault f = go (Fits-Fitting two_bytes p.value p.name f)
    where
      go :
          {v : Value} {name : List ℕ}
          → Fitting two_bytes v name
          → get_i16 (record p { value = v }) rest ≢ fault
      go (fits_two_bytes l) e = cc

  get_i32-ne-fault : Fits four_bytes p.value p.name → get_i32 p rest ≢ fault
  get_i32-ne-fault f = go (Fits-Fitting four_bytes p.value p.name f)
    where
      go :
          {v : Value} {name : List ℕ}
          → Fitting four_bytes v name
          → get_i32 (record p { value = v }) rest ≢ fault
      go (fits_four_bytes l) e = cc

  get_varint-ne-fault : Fits variable p.value p.name → get_varint p rest ≢ fault
  get_varint-ne-fault f = go (Fits-Fitting variable p.value p.name f)
    where
      go :
          {v : Value} {name : List ℕ}
          → Fitting variable v name
          → get_varint (record p { value = v }) rest ≢ fault
      go (fits_variable l) e = cc

  copy_bin-ne-fault : (a : Bool) → Fits binary p.value p.name → copy_bin a p rest ≢ fault
  copy_bin-ne-fault a f = go a (Fits-Fitting binary p.value p.name f)
    where
      go :
          {v : Value} {name : List ℕ} (a : Bool)
          → Fitting binary v name
          → copy_bin a (record p { value = v }) rest ≢ fault
      go true (fits_binary l) e = cc
      go false (fits_binary l) e = cc

  copy_str-ne-fault : (a : Bool) → Fits text p.value p.name → copy_str a p rest ≢ fault
  copy_str-ne-fault a f = go a (Fits-Fitting text p.value p.name f)
    where
      go :
          {v : Value} {name : List ℕ} (a : Bool)
          → Fitting text v name
          → copy_str a (record p { value = v }) rest ≢ fault
      go true (fits_text l enc) e = cc
      go false (fits_text l enc) e = cc

  copy_pair-ne-fault : (a b : Bool) → Fits text_pair p.value p.name → copy_pair a b p rest ≢ fault
  copy_pair-ne-fault a b f = go a b (Fits-Fitting text_pair p.value p.name f)
    where
      go :
          {v : Value} {name : List ℕ} (a b : Bool)
          → Fitting text_pair v name
          → copy_pair a b (record p { value = v }) rest ≢ fault
      go true true (fits_text_pair l enc l1 enc1) e = cc
      go true false (fits_text_pair l enc l1 enc1) e = cc
      go false b (fits_text_pair l enc l1 enc1) e = cc

-- On a list whose properties fit their identifiers no accessor reads a member of the union that was
-- not set, whatever identifier it is asked for.
pub accessors-ne-fault :
    (ps : List Property) (n : ℕ) (skip : Bool) (heap : Heap)
    → AllFit ps
    → (property_read_byte ps n skip ≢ fault)
      × (property_read_int16 ps n skip ≢ fault)
      × (property_read_int32 ps n skip ≢ fault)
      × (property_read_varint ps n skip ≢ fault)
      × (property_read_binary ps n skip heap ≢ fault)
      × (property_read_string ps n skip heap ≢ fault)
      × (property_read_string_pair ps n skip heap ≢ fault)
unfolding property_read_byte property_read_int16 property_read_int32 property_read_varint
    property_read_binary property_read_string property_read_string_pair read_kind
accessors-ne-fault ps n skip heap f = (
  search-ne-fault ps n skip _ f (λ p rest h. ground (arith, get_i8-ne-fault p rest)),
  search-ne-fault ps n skip _ f (λ p rest h. ground (arith, get_i16-ne-fault p rest)),
  search-ne-fault ps n skip _ f (λ p rest h. ground (arith, get_i32-ne-fault p rest)),
  search-ne-fault ps n skip _ f (λ p rest h. ground (arith, get_varint-ne-fault p rest)),
  search-ne-fault ps n skip _ f (λ p rest h. ground (arith, copy_bin-ne-fault p rest (heap 0))),
  search-ne-fault ps n skip _ f (λ p rest h. ground (arith, copy_str-ne-fault p rest (heap 0))),
  search-ne-fault ps n skip _ f
      (λ p rest h. ground (arith, copy_pair-ne-fault p rest (heap 0) (heap 1))),
)

-- A number that was added is what the accessor of its type gives back, where the list had no property
-- with that identifier: after an addition that succeeds.
pub read-add_values :
    (ps : List Property) (n v : ℕ) (heap : Heap)
    → has_identifier n ps ≡ false
    → ((add_byte (some ps) n v heap >>= λ qs. property_read_byte qs n false)
        ≡ (add_byte (some ps) n v heap >>= λ qs. ok (some (v, built n (i8 v) [], []))))
      × ((add_int16 (some ps) n v heap >>= λ qs. property_read_int16 qs n false)
          ≡ (add_int16 (some ps) n v heap >>= λ qs. ok (some (v, built n (i16 v) [], []))))
      × ((add_int32 (some ps) n v heap >>= λ qs. property_read_int32 qs n false)
          ≡ (add_int32 (some ps) n v heap >>= λ qs. ok (some (v, built n (i32 v) [], []))))
      × ((add_varint (some ps) n v heap >>= λ qs. property_read_varint qs n false)
          ≡ (add_varint (some ps) n v heap >>= λ qs. ok (some (v, built n (varint v) [], []))))
unfolding property_read_byte property_read_int16 property_read_int32 property_read_varint add_byte
    add_int16 add_int32 add_varint
read-add_values ps n v heap h = (
  ground (arith, get_property-add ps (built n (i8 v) []) n h refl),
  ground (arith, get_property-add ps (built n (i16 v) []) n h refl),
  ground (arith, get_property-add ps (built n (i32 v) []) n h refl),
  ground (arith, get_property-add ps (built n (varint v) []) n h refl),
)
