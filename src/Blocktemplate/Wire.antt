-- ===== src/Blocktemplate/Wire.antt =====
-- The reader, the writer and the errors that blocktemplate/*.go works with. The reader is the
-- `bytes.Buffer` that stratum/blocks.go hands over; the writer is any `io.Writer`.
use xmrpool.Common.{
  ℕ, ◌*◌, ◌^◌, ◌≤◌, ◌≡◌, refl, ap, [], ◌∷◌, ◌++◌, append-nil, leb, ◌==◌, if◌then◌else◌, length,
  take, drop, take-append, drop-append, drop-length, le→leb,
}
use xmrpool.Common.Texts.{Bytes}

pub data Error : Type 0 where
  eof bad_length bad_hex : Error
  write_failed : ℕ → Error

-- Go's (value, error) pair; `panicked` is a run-time panic.
pub data Result (A : Type 0) : Type 0 where
  ok : A → Result A
  err : Error → Result A
  panicked : Result A

infixl 5 ◌>>=◌ ◌>>◌
abbrev pub ◌>>=◌ : {A B : Type 0} → Result A → (A → Result B) → Result B
panicked >>= next = panicked
err e >>= next = err e
ok a >>= next = next a

abbrev pub ◌>>◌ : {B : Type 0} → Result (Unit {0}) → Result B → Result B
step >> rest = step >>= λ _. rest

-- `bytes.Buffer.Read` into a slice of n bytes: what was read, and the rest. An empty buffer is
-- `io.EOF` unless n is 0; a short read is no error.
unfoldable pub read : ℕ → Bytes → Result (Bytes × Bytes)
read n [] = if n == 0 then ok ([], []) else err eof
read n (x ∷ xs) = ok (take n (x ∷ xs), drop n (x ∷ xs))

-- Reading into a fixed array: bytes that the read did not reach keep their old content.
unfoldable pub read_into : Bytes → Bytes → Result (Bytes × Bytes)
read_into old r = do (got, rest) ← read (length old) r; ok (got ++ drop (length got) old, rest)

-- `make([]T, n)` on a 64-bit machine panics if the size in bytes is over the address space.
abbrev pub max_alloc : ℕ
max_alloc = 2 ^ 48

unfoldable pub make_slice : ℕ → ℕ → Result (Unit {0})
make_slice size n = if leb (size * n) max_alloc then ok tt else panicked

-- `bytes.Buffer.Write`: appends, and returns no error.
abbrev pub buffer_write : Bytes → Bytes → Result Bytes
buffer_write bs out = ok (out ++ bs)

pub read-append : (bs rest : Bytes) → read (length bs) (bs ++ rest) ≡ ok (bs, rest)
unfolding read
read-append [] [] = refl
read-append [] (x ∷ rest) = refl
read-append (b ∷ bs) rest = ap ok (λ i. (take-append (b ∷ bs) rest i, drop-append (b ∷ bs) rest i))

-- A read of as many bytes as the array has replaces all of it.
pub read_into-append :
    (old bs rest : Bytes) → length old ≡ length bs → read_into old (bs ++ rest) ≡ ok (bs, rest)
unfolding read_into
read_into-append old bs rest e =
    rw (e, read-append bs rest) (rw (← e) (rw (drop-length old, append-nil bs) refl))

pub make_slice_fits : (size n : ℕ) → size * n ≤ max_alloc → make_slice size n ≡ ok tt
unfolding make_slice
make_slice_fits size n h = rw (le→leb _ _ h)
