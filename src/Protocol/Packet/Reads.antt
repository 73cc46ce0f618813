-- ===== src/Protocol/Packet/Reads.antt =====
-- What a read does at a given position: `Reads m xs a` says that `m` takes the bytes `xs` off the
-- input, whatever follows them, and returns `a`. A rule for each way to build a read.
use signedpulse.Base.{
  ℕ, ◌+◌, ◌*◌, ◌^◌, ◌<◌, ◌≡◌, refl, sym, ap, ◌∙◌, subst, [], ◌∷◌, ◌++◌, arith, ok, length, drop,
  length-append, Bytes, ℤ, pos, IsI64, nat_key, bytes_key, ip_key, append_assoc, drop-drop,
  take_append, drop_append,
}
use signedpulse.Base
use signedpulse.Protocol.Words.{
  to_le, from_le, from_le-to_le, to_le-IsArray, i64_bits, i64_of_bits, i64_of_bits-i64_bits,
}
use signedpulse.Protocol.Reader.{
  Reader, take, array, u8, u16, u32, i64, usize_mod, Read, ◌>>=◌, pure,
}

-- The reader has read up to the bytes `s`.
abbrev pub IsAt : Reader → Bytes → Type 0
IsAt r s = (drop r.pos r.buf ≡ s) × (r.pos + length s ≡ length r.buf) × (length r.buf < usize_mod)

pub record Reads {A : Type 0} (m : Read A) (xs : Bytes) (a : A) : Type 0 where
  pub run :
      (r : Reader) (s : Bytes) → IsAt r (xs ++ s) → (r' : Reader) × (m r ≡ ok (a, r')) × IsAt r' s

pub Reads-take : (n : ℕ) (xs : Bytes) → length xs ≡ n → Reads (take n) xs xs
unfolding take
Reads-take n xs e = record {
  run = λ r s at.
      let there : drop n (drop r.pos r.buf) ≡ s = ap (drop n) at.0 ∙ drop_append xs s n e in
      let here : Base.take n (drop r.pos r.buf) ≡ xs =
        ap (Base.take n) at.0 ∙ take_append xs s n e in
      let size : length (xs ++ s) ≡ length xs + length s = length-append xs s in
      (
        record r { pos = r.pos + n },
        ground (arith, here, size),
        (sym (drop-drop r.pos n (r.pos + n) r.buf refl) ∙ there, omega (arith, size), at.2),
      );
}

module _ {A B : Type 0} where
  -- Two reads in a row, at adjacent bytes.
  pub Reads-bind :
      (m : Read A) (f : A → Read B) (xs ys : Bytes) (a : A) (b : B)
      → Reads m xs a
      → Reads (f a) ys b
      → Reads (m >>= f) (xs ++ ys) b
  Reads-bind m f xs ys a b hm hf = record {
    run = λ r s at.
        let (r', done, at') = hm.run r (ys ++ s) (rw (← append_assoc xs ys s) at) in
        let (r'', done', at'') = hf.run r' s at' in (r'', ground (arith, done, done'), at'');
  }

  pub Reads-map :
      (m : Read A) (f : A → B) (xs : Bytes) (a : A)
      → Reads m xs a
      → Reads (m >>= λ x. pure (f x)) xs (f a)
  Reads-map m f xs a hm = record {
    run = λ r s at. let (r', done, at') = hm.run r s at in (r', ground (arith, done), at');
  }

pub Reads-array : (n : ℕ) (xs : Bytes) → length xs ≡ n → Reads (array n) xs xs
unfolding array
Reads-array n xs e = Reads-take n xs e

-- A little-endian word of `w` bytes.
Reads-word :
    {A : Type 0} (w n : ℕ) (f : ℕ → A)
    → n < 256 ^ w
    → Reads (take w >>= λ b. pure (f (from_le b))) (to_le w n) (f n)
Reads-word w n f h =
    subst (λ k. Reads (take w >>= λ b. pure (f (from_le b))) (to_le w n) (f k))
      (from_le-to_le w n h)
      (Reads-map (take w) (λ b. f (from_le b)) (to_le w n) (to_le w n)
        (Reads-take w (to_le w n) (to_le-IsArray w n).0))

pub Reads-u8 : (b : ℕ) → Reads u8 (b ∷ []) b
unfolding u8 from_le
Reads-u8 b =
    let e : b + 256 * 0 ≡ b = omega arith in
    subst (Reads (take 1 >>= λ x. pure (from_le x)) (b ∷ [])) e
      (Reads-map (take 1) from_le (b ∷ []) (b ∷ []) (Reads-take 1 (b ∷ []) refl))

pub Reads-u16 : (n : ℕ) → n < 2 ^ 16 → Reads u16 (to_le 2 n) n
unfolding u16
Reads-u16 n h = Reads-word 2 n (λ k. k) h

pub Reads-u32 : (n : ℕ) → n < 2 ^ 32 → Reads u32 (to_le 4 n) n
unfolding u32
Reads-u32 n h = Reads-word 4 n (λ k. k) h

pub Reads-i64 : (a : ℤ) → IsI64 a → Reads i64 (to_le 8 (i64_bits a)) a
unfolding i64
Reads-i64 a h =
    let (back, bound) = i64_of_bits-i64_bits a h in
    subst (Reads i64 (to_le 8 (i64_bits a))) back (Reads-word 8 (i64_bits a) i64_of_bits bound)
