-- ===== src/Frame/Digits.antt =====
-- lib/packet_dimq.c: the digits of the length and the bytes of the payload, as the machine takes them.
use dimq.Frame.Feed.{more, complete, start_payload, feed, run}
use dimq.Frame.Driven.{after, run-after}
use dimq.Prelude.{
  ltb, append_assoc, ap, Bool-cases, ◌∙◌, ◌/◌, leb, ◌==◌, ◌%◌, length, List, [], ◌∷◌, ◌++◌, ℕ, suc,
  ◌+◌, ◌-◌, ◌≡◌, ◌≢◌, ◌<◌, inl, inr, refl, arith, true, false,
}
use dimq.Frame.{
  InPacket, Link, add_payload, add_length, counted, negated, is_in_length, is_too_long, measured,
  cleaned,
}
use dimq.Frame.Alloc.{encode}

-- The bytes of the payload, of which there is at least one
pub payload-run :
    (k : Link) (b : ℕ) (bs rest : List ℕ) (p : InPacket)
    → p.command ≢ 0
    → is_in_length p ≡ false
    → p.to_process ≡ suc (length bs)
    → run k p (b ∷ (bs ++ rest))
      ≡ (complete (record p { to_process = 0; payload = p.payload ++ (b ∷ bs) }), rest)
unfolding feed
payload-run k b [] rest p c l todo =
    let t : (p.command == 0) ≡ false = ground (arith, c) in
    let zero_left : p.to_process - 1 ≡ 0 = omega (arith, todo) in
    let fed : feed k b p ≡ complete (record p { to_process = 0; payload = p.payload ++ (b ∷ []) }) =
      rw (feed, t, l, zero_left) refl in
    run-after k p b rest (complete (record p { to_process = 0; payload = p.payload ++ (b ∷ []) }))
      fed
payload-run k b (b' ∷ bs) rest p c l todo =
    let t : (p.command == 0) ≡ false = ground (arith, c) in
    let left : p.to_process - 1 ≡ suc (length bs) = omega (arith, todo) in
    let q = add_payload b p in
    let u : (p.to_process - 1 == 0) ≡ false = ground (arith, left) in
    let fed : feed k b p ≡ more q = rw (feed, t, l, u) refl in
    run-after k p b (b' ∷ (bs ++ rest)) (more q) fed
    ∙ payload-run k b' bs rest q c l left
    ∙ ap (λ (x : List ℕ). (complete (record p { to_process = 0; payload = x }), rest))
        (append_assoc p.payload (b ∷ []) (b' ∷ bs))

-- A byte of the length that others follow, and the last one
pub digit-run :
    (k : Link) (b : ℕ) (bs : List ℕ) (p : InPacket)
    → p.command ≢ 0
    → is_in_length p ≡ true
    → is_too_long (counted p) ≡ false
    → run k p ((b + 128) ∷ bs) ≡ run k (add_length (b + 128) (counted p)) bs
unfolding feed
digit-run k b bs p c l short =
    let t : (p.command == 0) ≡ false = ground (arith, c) in
    let u : leb 128 (b + 128) ≡ true = ground arith in
    let q = add_length (b + 128) (counted p) in
    run-after k p (b + 128) bs (more q) (rw (feed, t, l, short, u) refl)

pub last-run :
    (k : Link) (b : ℕ) (bs : List ℕ) (p : InPacket)
    → p.command ≢ 0
    → is_in_length p ≡ true
    → is_too_long (counted p) ≡ false
    → b < 128
    → run k p (b ∷ bs)
      ≡ after k bs (
          start_payload
            (negated (add_length b (counted p)))
            (measured k (negated (add_length b (counted p)))))
unfolding feed
last-run k b bs p c l short lt =
    let t : (p.command == 0) ≡ false = ground (arith, c) in
    let u : leb 128 b ≡ false = ground (arith, lt) in
    let q = negated (add_length b (counted p)) in
    run-after k p b bs (start_payload q (measured k q)) (rw (feed, t, l, short, u) refl)

-- The packet with its length read
abbrev pub IsMeasured : ℕ → ℕ → InPacket → Type 0
IsMeasured c n q =
    (q.command ≡ c)
    × (q.remaining_length ≡ n)
    × (is_in_length q ≡ false)
    × (q.payload ≡ [])
    × (q.to_process ≡ 0)

pub encode-run :
    (k : Link) (c n : ℕ) (bs : List ℕ)
    → c ≢ 0
    → n < 268435456
    → (q : InPacket) × (run k (record cleaned { command = c }) (encode 5 n ++ bs)
        ≡ after k bs (start_payload q (measured k q)))
      × IsMeasured c n q
unfolding encode
encode-run k c n bs nonzero lt =
    let p0 = record cleaned { command = c } in
    let p1 = add_length (n % 128 + 128) (counted p0) in
    let p2 = add_length (n / 128 % 128 + 128) (counted p1) in
    let p3 = add_length (n / 128 / 128 % 128 + 128) (counted p2) in
    elim (Bool-cases (ltb 0 (n / 128))) [
      | inr t ↦
          let q = negated (add_length (n % 128) (counted p0)) in
          (
            q,
            rw t (last-run k (n % 128) bs p0 nonzero refl refl (omega arith)),
            (refl, ground (arith, t), refl, refl, refl),
          )
      | inl t ↦ elim (Bool-cases (ltb 0 (n / 128 / 128))) [
        | inr u ↦
            let q = negated (add_length (n / 128 % 128) (counted p1)) in
            (
              q,
              rw (t, u)
                  (digit-run k (n % 128) (n / 128 % 128 ∷ bs) p0 nonzero refl refl
                    ∙ last-run k (n / 128 % 128) bs p1 nonzero refl refl (omega arith)),
              (refl, ground (arith, u), refl, refl, refl),
            )
        | inl u ↦ elim (Bool-cases (ltb 0 (n / 128 / 128 / 128))) [
          | inr v ↦
              let q = negated (add_length (n / 128 / 128 % 128) (counted p2)) in
              (
                q,
                rw (t, u, v)
                    (digit-run k (n % 128) _ p0 nonzero refl refl
                      ∙ digit-run k (n / 128 % 128) _ p1 nonzero refl refl
                      ∙ last-run k (n / 128 / 128 % 128) bs p2 nonzero refl refl (omega arith)),
                (refl, ground (arith, v), refl, refl, refl),
              )
          | inl v ↦
              let w : ltb 0 (n / 128 / 128 / 128 / 128) ≡ false = ground (arith, lt) in
              let q = negated (add_length (n / 128 / 128 / 128 % 128) (counted p3)) in
              (
                q,
                rw (t, u, v, w)
                    (digit-run k (n % 128) _ p0 nonzero refl refl
                      ∙ digit-run k (n / 128 % 128) _ p1 nonzero refl refl
                      ∙ digit-run k (n / 128 / 128 % 128) _ p2 nonzero refl refl
                      ∙ last-run k (n / 128 / 128 / 128 % 128) bs p3 nonzero refl refl
                          (omega arith)),
                (refl, ground (arith, lt), refl, refl, refl),
              )
        ]
      ]
    ]
