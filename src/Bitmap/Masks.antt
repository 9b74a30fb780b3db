-- ===== src/Bitmap/Masks.antt =====
-- Code that clears rows of a bitmap and changes nothing else.
use Prim.Native.Nat.{bit_and}
use pefa.Base.{
  ℕ, ◌/◌, ◌%◌, ◌<◌, ◌≡◌, ◌∙◌, refl, arith, ◌==◌, if◌then◌else◌, Bool, true, ◌&&◌, List, length,
  get_or, set, length-set, get_or-set_self, get_or-set_ne, ==_iff, Bool-cases, inl, inr, Outcome,
  ok, ◌>>=◌,
}
use pefa.Bitmap.Bits.{byte_bit, bitmap_bit, byte_bit-bit_and}

-- The code returns the buffer with the rows cleared at which `w` is false.
pub record Masks (w : ℕ → Bool) (dest : List ℕ) (result : Outcome (List ℕ)) : Type 0 where
  pub out : List ℕ
  pub returns : result ≡ ok out
  pub same_length : length out ≡ length dest
  pub bits : (r : ℕ) → bitmap_bit out r ≡ (bitmap_bit dest r && w r)

pub Masks-nothing : (dest : List ℕ) → Masks (λ r. true) dest (ok dest)
Masks-nothing dest = record {
  out = dest;
  returns = refl;
  same_length = refl;
  bits = λ r. ground arith;
}

-- One step after another.
pub Masks-bind :
    {w v : ℕ → Bool} {dest : List ℕ} {m : Outcome (List ℕ)} {f : List ℕ → Outcome (List ℕ)}
    → Masks w dest m
    → ((mid : List ℕ) → length mid ≡ length dest → Masks v mid (f mid))
    → Masks (λ r. w r && v r) dest (m >>= f)
Masks-bind {f} a b =
    let rest = b a.out a.same_length in
    record {
      out = rest.out;
      returns = rw (a.returns) (rest.returns);
      same_length = rest.same_length ∙ a.same_length;
      bits = λ r. ground (arith, a.bits r, rest.bits r);
    }

-- The same rows, described otherwise.
pub Masks-congr :
    {w v : ℕ → Bool} {dest : List ℕ} {m : Outcome (List ℕ)}
    → ((r : ℕ) → w r ≡ v r)
    → Masks w dest m
    → Masks v dest m
Masks-congr same a = record {
  out = a.out;
  returns = a.returns;
  same_length = a.same_length;
  bits = λ r. ground (arith, a.bits r, same r);
}

bitmap_bit-set :
    (buf : List ℕ) (p v r : ℕ)
    → p < length buf
    → bitmap_bit (set buf p v) r ≡ (if r / 8 == p then byte_bit v (r % 8) else bitmap_bit buf r)
unfolding bitmap_bit
bitmap_bit-set buf p v r h = elim (Bool-cases (r / 8 == p)) [
  | inl e ↦
      let e' : r / 8 ≡ p = (==_iff (r / 8) p).0 e in rw (e, e', get_or-set_self buf p v 0 h) refl
  | inr e ↦ rw (e, get_or-set_ne buf p (r / 8) v 0 (ground arith)) refl
]

and_row :
    (dest : List ℕ) (p v r : ℕ)
    → r / 8 ≡ p
    → byte_bit (bit_and (get_or dest p 0) v) (r % 8) ≡ (bitmap_bit dest r && byte_bit v (r % 8))
unfolding bitmap_bit
and_row dest p v r e = rw e (byte_bit-bit_and (get_or dest p 0) v (r % 8))

-- `dest[p] &= v`.
pub Masks-byte :
    (dest : List ℕ) (p v : ℕ)
    → p < length dest
    → Masks
        (λ r. if r / 8 == p then byte_bit v (r % 8) else true)
        dest
        (ok (set dest p (bit_and (get_or dest p 0) v)))
Masks-byte dest p v h = record {
  out = set dest p (bit_and (get_or dest p 0) v);
  returns = refl;
  same_length = length-set dest p _;
  bits = λ r.
      ground (arith, bitmap_bit-set dest p (bit_and (get_or dest p 0) v) r h, and_row dest p v r);
}
