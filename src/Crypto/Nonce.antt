-- ===== src/Crypto/Nonce.antt =====
-- The nonce of src/base/CryptoHandler.cpp: 24 bytes, the least significant first.
use eternal_terminal.Common.{
  ℕ, zero, suc, ◌+◌, ◌*◌, ◌%◌, ◌^◌, ◌<◌, ◌≡◌, refl, ap, List, [], ◌∷◌, ◌++◌, ◌==◌, if◌then◌else◌,
  arith, inl, inr, Bool-cases, ==_iff,
}

abbrev zeros : ℕ → List ℕ
zeros zero = []
zeros (suc n) = 0 ∷ zeros n

-- `memset(nonce, 0, NONCEBYTES); nonce[NONCEBYTES - 1] = nonceMSB`
unfoldable pub initial_nonce : ℕ → List ℕ
initial_nonce msb = zeros 23 ++ (msb ∷ [])

-- The loop stops at the first byte that does not roll over.
unfoldable pub increment_nonce : List ℕ → List ℕ
increment_nonce [] = []
increment_nonce (b ∷ bs) =
    let b' = (b + 1) % 256 in if b' == 0 then b' ∷ increment_nonce bs else b' ∷ bs

-- The number that the bytes spell, and the bound on each.
abbrev pub value : List ℕ → ℕ
value [] = 0
value (b ∷ bs) = b + 256 * value bs

abbrev pub AreBytes : List ℕ → Type 0
AreBytes [] = Unit {0}
AreBytes (b ∷ bs) = (b < 256) × AreBytes bs

abbrev pub capacity : List ℕ → ℕ
capacity [] = 1
capacity (b ∷ bs) = 256 * capacity bs

value-lt : (bs : List ℕ) → AreBytes bs → value bs < capacity bs
value-lt [] h = omega arith
value-lt (b ∷ bs) h = omega (arith, value-lt bs h.1)

increment-AreBytes : (bs : List ℕ) → AreBytes bs → AreBytes (increment_nonce bs)
unfolding increment_nonce
increment-AreBytes [] h = tt
increment-AreBytes (b ∷ bs) h = ground (arith, increment-AreBytes bs h.1)

capacity-increment : (bs : List ℕ) → capacity (increment_nonce bs) ≡ capacity bs
unfolding increment_nonce
capacity-increment [] = refl
capacity-increment (b ∷ bs) = ground (arith, capacity-increment bs)

-- Below the top an increment adds one to the number that the bytes spell.
value-increment :
    (bs : List ℕ)
    → AreBytes bs
    → value bs + 1 < capacity bs
    → value (increment_nonce bs) ≡ value bs + 1
unfolding increment_nonce
value-increment [] h k = absurd (omega arith)
value-increment (b ∷ bs) h k = elim (Bool-cases ((b + 1) % 256 == 0)) [
  | inl rolls ↦ rw rolls (
      let top : b ≡ 255 = omega (arith, (==_iff _ _).0 rolls) in
      omega (arith, value-increment bs h.1 (omega arith), (==_iff _ _).0 rolls))
  | inr stays ↦ rw stays (ground (arith, stays))
]

-- The nonce after n more messages.
abbrev pub advance : ℕ → List ℕ → List ℕ
advance zero nonce = nonce
advance (suc n) nonce = advance n (increment_nonce nonce)

pub advance-suc :
    (n : ℕ) (nonce : List ℕ) → increment_nonce (advance n nonce) ≡ advance (suc n) nonce
advance-suc zero nonce = refl
advance-suc (suc n) nonce = advance-suc n (increment_nonce nonce)

pub advance_add : (n m : ℕ) (nonce : List ℕ) → advance m (advance n nonce) ≡ advance (n + m) nonce
advance_add zero m nonce = let e : zero + m ≡ m = omega arith in rw e
advance_add (suc n) m nonce =
    let e : suc n + m ≡ suc (n + m) = omega arith in rw e (advance_add n m (increment_nonce nonce))

AreBytes-advance : (n : ℕ) (bs : List ℕ) → AreBytes bs → AreBytes (advance n bs)
AreBytes-advance zero bs h = h
AreBytes-advance (suc n) bs h = AreBytes-advance n (increment_nonce bs) (increment-AreBytes bs h)

value-advance :
    (n : ℕ) (bs : List ℕ)
    → AreBytes bs
    → value bs + n < capacity bs
    → value (advance n bs) ≡ value bs + n
value-advance zero bs h k = omega arith
value-advance (suc n) bs h k =
    let step = value-increment bs h (omega arith) in
    omega (
      arith,
      value-advance n (increment_nonce bs) (increment-AreBytes bs h)
          (omega (arith, capacity-increment bs)),
    )

value-initial : (msb : ℕ) → value (initial_nonce msb) ≡ msb * 256 ^ 23
unfolding initial_nonce
value-initial msb = omega arith

capacity-initial : (msb : ℕ) → capacity (initial_nonce msb) ≡ 256 ^ 24
unfolding initial_nonce
capacity-initial msb = refl

AreBytes-initial : (msb : ℕ) → msb < 256 → AreBytes (initial_nonce msb)
unfolding initial_nonce
AreBytes-initial msb h = omega arith

value-advance-initial :
    (msb n : ℕ)
    → msb < 256
    → n < 256 ^ 23
    → value (advance n (initial_nonce msb)) ≡ msb * 256 ^ 23 + n
value-advance-initial msb n h k =
    let start = value-initial msb in
    let top = capacity-initial msb in
    omega (arith, value-advance n (initial_nonce msb) (AreBytes-initial msb h) (omega arith))

-- Two handlers never use one nonce, and one handler never uses a nonce twice, in their first
-- 256^23 messages: equal nonces are of the same handler's top byte and the same count.
pub advance_initial_unique :
    (msb msb' m n : ℕ)
    → msb < 256
    → msb' < 256
    → m < 256 ^ 23
    → n < 256 ^ 23
    → advance m (initial_nonce msb) ≡ advance n (initial_nonce msb')
    → (msb ≡ msb') × (m ≡ n)
advance_initial_unique msb msb' m n h h' k k' e =
    omega (arith, ap value e, value-advance-initial msb m h k, value-advance-initial msb' n h' k')
