-- ===== src/Topic/Agree.antt =====
-- The checks on NUL-terminated strings agree with those on a given length.
use dimq.Topic.{
  pub_scan, pub_loop, pub_topic_check, pub_topic_check2, sub_scan, sub_loop, sub_topic_check,
  sub_topic_check2, count_level, head_or_nul, more_bytes, check_depth,
}
use dimq.Prelude.{
  ℕ, ◌+◌, ◌≡◌, ◌≢◌, ◌==◌, not, ◌&&◌, ◌||◌, Bool, true, false, List, [], ◌∷◌, some, length, ltb,
  arith, refl, if◌then◌else◌,
}
use dimq.Result.{Result, ok, err, fault, ◌>>=◌, inval}

abbrev pub NoNul : List ℕ → Type 0
NoNul [] = Unit
NoNul (c ∷ str) = (c ≢ 0) × NoNul str

-- The scan is the loop, and counts the bytes.
pub_scan-pub_loop :
    (str : List ℕ) (len hier : ℕ)
    → pub_scan str len hier ≡ (pub_loop str hier >>= λ h. ok (len + length str, h))
unfolding pub_scan pub_loop
pub_scan-pub_loop [] len hier = let e : len + 0 ≡ len = omega arith in rw e refl
pub_scan-pub_loop (c ∷ str) len hier =
    let e : len + 1 + length str ≡ len + length (c ∷ str) = omega arith in
    ground (arith, e, pub_scan-pub_loop str (len + 1) (count_level c hier))

next_nul :
    (str : List ℕ) → NoNul str → (head_or_nul str == 0) ≡ (if more_bytes str then false else true)
next_nul [] h = refl
next_nul (c ∷ str) h = ground arith

sub_scan-sub_loop :
    (c : ℕ) (str : List ℕ) (len hier : ℕ)
    → NoNul str
    → sub_scan c str len hier ≡ (sub_loop c str hier >>= λ h. ok (len + length str, h))
unfolding sub_scan sub_loop
sub_scan-sub_loop c [] len hier n = let e : len + 0 ≡ len = omega arith in rw e refl
sub_scan-sub_loop c (x ∷ str) len hier n =
    let e : len + 1 + length str ≡ len + length (x ∷ str) = omega arith in
    ground (arith, e, next_nul str n.1, sub_scan-sub_loop x str (len + 1) (count_level x hier) n.1)

-- The one error of a scan.
abbrev OnlyInval : Result ℕ → Type 0
OnlyInval (ok h) = Unit
OnlyInval (err e) = e ≡ inval
OnlyInval fault = ⊥

OnlyInval-if : (t : Bool) (r : Result ℕ) → OnlyInval r → OnlyInval (if t then err inval else r)
OnlyInval-if true r h = refl
OnlyInval-if false r h = h

OnlyInval-if2 :
    (t : Bool) (r r' : Result ℕ) → OnlyInval r → OnlyInval r' → OnlyInval (if t then r else r')
OnlyInval-if2 true r r' h h' = h
OnlyInval-if2 false r r' h h' = h'

pub_loop-OnlyInval : (str : List ℕ) (hier : ℕ) → OnlyInval (pub_loop str hier)
unfolding pub_loop
pub_loop-OnlyInval [] hier = tt
pub_loop-OnlyInval (c ∷ str) hier =
    OnlyInval-if (c == b'+' || c == b'#') (pub_loop str (count_level c hier))
      (pub_loop-OnlyInval str (count_level c hier))

sub_loop-OnlyInval : (c : ℕ) (str : List ℕ) (hier : ℕ) → OnlyInval (sub_loop c str hier)
unfolding sub_loop
sub_loop-OnlyInval c [] hier = tt
sub_loop-OnlyInval c (x ∷ str) hier =
    let rest = sub_loop x str (count_level x hier) in
    let same = sub_loop-OnlyInval x str (count_level x hier) in
    let front = not (c == 0) && not (c == b'/') in
    let plus = front || (more_bytes str && not (head_or_nul str == b'/')) in
    let hash = front || more_bytes str in
    OnlyInval-if2 (x == b'+') (if plus then err inval else rest)
      (if x == b'#' then (if hash then err inval else rest) else rest) (OnlyInval-if plus rest same)
      (OnlyInval-if2 (x == b'#') (if hash then err inval else rest) rest
        (OnlyInval-if hash rest same) same)

finish :
    (broker : Bool) (n : ℕ) (r : Result ℕ)
    → OnlyInval r
    → ((r >>= λ h. ok (0 + n, h)) >>= λ (len, h).
        if ltb 65535 len then err inval else check_depth broker h)
      ≡ (if ltb 65535 n then err inval else r >>= check_depth broker)
finish broker n (ok h) k = let z : 0 + n ≡ n = omega arith in rw z refl
finish broker n (err e) k = rw k (ground arith)
finish broker n fault k = absurd k

-- `dimq_pub_topic_check` of a string answers as `dimq_pub_topic_check2` with its length does, in the
-- library and in the broker.
pub pub_topic_check-pub_topic_check2 :
    (broker : Bool) (str : List ℕ)
    → pub_topic_check broker (some str) ≡ pub_topic_check2 broker (some str)
unfolding pub_topic_check pub_topic_check2
pub_topic_check-pub_topic_check2 broker str =
    rw (pub_scan-pub_loop str 0 0)
      (finish broker (length str) (pub_loop str 0) (pub_loop-OnlyInval str 0))

-- `dimq_sub_topic_check` of a string answers as `dimq_sub_topic_check2` with its length does, where no
-- byte of it is NUL, in the library and in the broker.
pub sub_topic_check-sub_topic_check2 :
    (broker : Bool) (str : List ℕ)
    → NoNul str
    → sub_topic_check broker (some str) ≡ sub_topic_check2 broker (some str)
unfolding sub_topic_check sub_topic_check2
sub_topic_check-sub_topic_check2 broker str h =
    rw (sub_scan-sub_loop 0 str 0 0 h)
      (finish broker (length str) (sub_loop 0 str 0) (sub_loop-OnlyInval 0 str 0))
