-- ===== src/Store/Artifacts/Wav.antt =====
-- What validate_wav of selfhost_models/wav.py lets through.
use selfhost_models.Prelude.{
  ℕ, ◌+◌, ◌-◌, ◌%◌, ◌≤◌, ◌<◌, ◌≡◌, refl, Bool, true, false, ◌&&◌, ◌||◌, not, ltb, leb, eqb, List,
  length, arith,
}
use selfhost_models.Store.Artifacts.{valid_wav, u16, u32, slice_is}

both : (a b : Bool) → (a && b) ≡ true → (a ≡ true) × (b ≡ true)
both true true h = (refl, refl)
both true false h = absurd (ground arith)
both false b h = absurd (ground arith)

neither : (a b : Bool) → not (a || b) ≡ true → (not a ≡ true) × (not b ≡ true)
neither true b h = absurd (ground arith)
neither false b h = (refl, h)

last_tests :
    (a b c d e f g : Bool)
    → not (a || (b || (c || (d || (e || (f || g)))))) ≡ true
    → (not a ≡ true) × (not e ≡ true) × (not f ≡ true) × (not g ≡ true)
last_tests a b c d e f g h = ground arith

sizes :
    (n frames riff : ℕ)
    → not (not (ltb 44 n && leb n 1048576)) ≡ true
    → not (not (eqb riff (n - 8))) ≡ true
    → not (not (eqb frames (n - 44))) ≡ true
    → not (not (eqb (frames % 2) 0)) ≡ true
    → not (not (ltb 0 frames && leb frames 960000)) ≡ true
    → (46 ≤ n) × (n ≤ 960044) × (n % 2 ≡ 0) × (riff + 8 ≡ n) × (frames + 44 ≡ n)
sizes n frames riff a b c d e =
    let (a1, a2) = ranged 44 n 1048576 a in
    let (e1, e2) = ranged 0 frames 960000 e in
    let k : frames ≡ n - 44 = equal frames (n - 44) c in
    let r : riff ≡ n - 8 = equal riff (n - 8) b in
    let m : frames % 2 ≡ 0 = equal (frames % 2) 0 d in
    (omega arith, omega arith, omega arith, omega arith, omega arith)
  where
    ranged : (l x u : ℕ) → not (not (ltb l x && leb x u)) ≡ true → (l < x) × (x ≤ u)
    ranged l x u h = ground arith

    equal : (x y : ℕ) → not (not (eqb x y)) ≡ true → x ≡ y
    equal x y h = ground arith

-- An accepted upload has a sample at least and 30 seconds at most (960044 bytes with the header,
-- less than the size that is checked first), a whole number of 16-bit samples, and a header that
-- gives its true length.
pub valid_wav-bounds :
    (bytes : List ℕ)
    → valid_wav bytes ≡ true
    → (46 ≤ length bytes)
      × (length bytes ≤ 960044)
      × (length bytes % 2 ≡ 0)
      × (u32 bytes 4 + 8 ≡ length bytes)
      × (u32 bytes 40 + 44 ≡ length bytes)
unfolding valid_wav
valid_wav-bounds bytes h =
    let n = length bytes in
    let frames = u32 bytes 40 in
    let (first_test, second_test) = both _ _ h in
    let (size, tags) = neither _ _ first_test in
    let (riff, payload, even, short) =
      last_tests (not (eqb (u32 bytes 4) (n - 8))) (not (eqb (u32 bytes 16) 16))
        (not (
          eqb (u16 bytes 20) 1
          && (eqb (u16 bytes 22) 1
              && (eqb (u32 bytes 24) 16000
                  && (eqb (u32 bytes 28) 32000
                      && (eqb (u16 bytes 32) 2 && eqb (u16 bytes 34) 16))))))
        (not (slice_is bytes 36 "data")) (not (eqb frames (n - 44))) (not (eqb (frames % 2) 0))
        (not (ltb 0 frames && leb frames 960000)) second_test in
    sizes n frames (u32 bytes 4) size riff payload even short
