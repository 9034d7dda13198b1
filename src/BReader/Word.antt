-- ===== src/BReader/Word.antt =====
-- The digits of a uint64_t that is copied from memory, in either byte order.
use actf.Common.{
  ℕ, zero, suc, ◌+◌, ◌-◌, ◌*◌, ◌/◌, ◌%◌, ◌^◌, ◌≤◌, ◌<◌, ◌≡◌, refl, sym, ap, ◌∙◌, List, [], ◌∷◌,
  arith, ltb, if◌then◌else◌,
}
use actf.Common.Lists.{length, get_or, drop, get_or-drop}
use actf.Common.Bits.{u64_mod, bit, bit-zero}
use native.Mathlib.Nat.{pow-zero, pow-suc}
use actf.Crust.{bswap64}
use actf.Crust.Swap.{bit-bswap64, bswap64-lt}
use actf.BReader.{ByteOrder, lil_endian, big_endian, word, htole64, htobe64}
use actf.BReader.Stream.{AreBytes, stream_bit, ahead_bit}

get_or-lt : (bs : List ℕ) (i : ℕ) → AreBytes bs → get_or bs i 0 < 256
get_or-lt [] i h = omega arith
get_or-lt (b ∷ bs) zero h = h.0
get_or-lt (b ∷ bs) (suc i) h = get_or-lt bs i h.1

pub drop-AreBytes : (n : ℕ) (bs : List ℕ) → AreBytes bs → AreBytes (drop n bs)
drop-AreBytes zero bs h = h
drop-AreBytes (suc n) [] h = h
drop-AreBytes (suc n) (b ∷ bs) h = drop-AreBytes n bs h.1

-- The digits of b + 2 ^ n * w are those of b, then those of w.
bit-pair :
    (n k b w : ℕ) → b < 2 ^ n → bit k (b + 2 ^ n * w) ≡ (if ltb k n then bit k b else bit (k - n) w)
unfolding bit
bit-pair zero k b w h =
    let b0 : b ≡ 0 = omega (arith, pow-zero 2) in
    rw b0 (ground (arith, ap (λ (t : ℕ). t * w) (pow-zero 2)))
bit-pair (suc n) zero b w h = ground (arith, ap (λ (t : ℕ). t * w) (pow-suc 2 n))
bit-pair (suc n) (suc k) b w h =
    let doubled = ap (λ (t : ℕ). t * w) (pow-suc 2 n) in
    let halved : (b + 2 ^ suc n * w) / 2 ≡ b / 2 + 2 ^ n * w = omega (arith, doubled) in
    rw halved (bit-pair n k (b / 2) w (omega (arith, pow-suc 2 n)) ∙ ground arith)

pub word-lt : (n : ℕ) (bs : List ℕ) → AreBytes bs → word n bs < 256 ^ n
unfolding word
word-lt zero bs h = omega (arith, pow-zero 256)
word-lt (suc n) [] h = omega (arith, pow-suc 256 n, word-lt n [] h)
word-lt (suc n) (b ∷ bs) h = omega (arith, h.0, pow-suc 256 n, word-lt n bs h.1)

bit-word :
    (n : ℕ) (bs : List ℕ) (q r : ℕ)
    → AreBytes bs
    → q < n
    → r < 8
    → bit (8 * q + r) (word n bs) ≡ bit r (get_or bs q 0)
unfolding word
bit-word zero bs q r h l m = absurd (omega arith)
bit-word (suc n) [] q r h l m = bit-zero (8 * q + r) ∙ sym (bit-zero r)
bit-word (suc n) (b ∷ bs) zero r h l m = ground (arith, bit-pair 8 (8 * 0 + r) b (word n bs) h.0)
bit-word (suc n) (b ∷ bs) (suc q) r h l m =
    ground (arith, bit-pair 8 (8 * suc q + r) b (word n bs) h.0, bit-word n bs q r h.1)

-- Bytes past the end of memory read as the zeros of `next`.
pub word_all : (n m : ℕ) (bs : List ℕ) → length bs ≤ n → length bs ≤ m → word n bs ≡ word m bs
unfolding word
word_all zero zero bs p q = refl
word_all zero (suc m) [] p q = refl
word_all (suc n) zero [] p q = refl
word_all (suc n) (suc m) [] p q = refl
word_all (suc n) (suc m) (b ∷ bs) p q =
    ap (λ (w : ℕ). b + 256 * w) (word_all n m bs (omega arith) (omega arith))
word_all n m (b ∷ bs) p q = absurd (omega arith)

-- A value copied from memory, in the byte order of the reader.
abbrev pub host_to : ByteOrder → ℕ → ℕ
host_to lil_endian = htole64
host_to big_endian = htobe64

pub host_to-lt : (bo : ByteOrder) (x : ℕ) → x < u64_mod → host_to bo x < u64_mod
host_to-lt lil_endian x h = h
host_to-lt big_endian x h = bswap64-lt x h

-- Its bits in reading order are the stream's.
pub ahead_bit-word :
    (bo : ByteOrder) (bs : List ℕ) (k : ℕ)
    → AreBytes bs
    → k < 64
    → ahead_bit bo k (host_to bo (word 8 bs)) ≡ stream_bit bo bs k
ahead_bit-word lil_endian bs k h l =
    let split : k ≡ 8 * (k / 8) + k % 8 = omega arith in
    ap (λ (m : ℕ). bit m (word 8 bs)) split
    ∙ bit-word 8 bs (k / 8) (k % 8) h (omega arith) (omega arith)
ahead_bit-word big_endian bs k h l =
    let split : 63 - k ≡ 8 * (7 - k / 8) + (7 - k % 8) = omega arith in
    let back : 8 * (7 - (7 - k / 8)) + (7 - k % 8) ≡ 8 * (k / 8) + (7 - k % 8) = omega arith in
    ap (λ (m : ℕ). bit m (bswap64 (word 8 bs))) split
    ∙ bit-bswap64 (7 - k / 8) (7 - k % 8) (word 8 bs) (omega arith) (omega arith)
    ∙ ap (λ (m : ℕ). bit m (word 8 bs)) back
    ∙ bit-word 8 bs (k / 8) (7 - k % 8) h (omega arith) (omega arith)

pub stream_bit-drop :
    (bo : ByteOrder) (bs : List ℕ) (p k : ℕ)
    → stream_bit bo (drop p bs) k ≡ stream_bit bo bs (8 * p + k)
stream_bit-drop lil_endian bs p k =
    let byte : (8 * p + k) / 8 ≡ p + k / 8 = omega arith in
    let digit : (8 * p + k) % 8 ≡ k % 8 = omega arith in rw (get_or-drop, byte, digit)
stream_bit-drop big_endian bs p k =
    let byte : (8 * p + k) / 8 ≡ p + k / 8 = omega arith in
    let digit : (8 * p + k) % 8 ≡ k % 8 = omega arith in rw (get_or-drop, byte, digit)
