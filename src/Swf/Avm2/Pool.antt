-- ===== src/Swf/Avm2/Pool.antt =====
-- Lists, tables and bytes of ABC files read back (swf/src/avm2/read.rs, swf/src/avm2/write.rs).
pub mod Entries
use ruffle.Prelude.{
  ℕ, suc, ◌+◌, ◌-◌, ◌%◌, ◌^◌, ◌<◌, ◌≡◌, refl, ap, List, [], ◌∷◌, arith, length, All, true, lt→ltb,
  lt→leb, length-append,
}
use native.Mathlib.Nat.{mod-eq_of_lt}
use ruffle.Swf.ByteOrder.{ByteOrder}
use ruffle.Swf.Utf8.{is_utf8}
use ruffle.Swf.Read.{M, pure, ◌>>=◌, read_many, read_f64, read_exact}
use ruffle.Swf.Write.{W, ◌>>◌, write_all, write_u8, write_f64}
use ruffle.Swf.Decodes.{Decodes-read_exact, Decodes-agree}
use ruffle.Swf.Decodes.Fields.{Decodes-read_f64}
use ruffle.Swf.Avm2.Types.{Index, Str, Namespace, NamespaceSet, Multiname, ConstantPool}
use ruffle.Swf.Avm2.Primitives.{
  read_u30, read_u32, read_index, read_up_to, read_string, string_of, as_u32, write_u30, write_u32,
  write_index, write_string,
}
use ruffle.Swf.Avm2.Reads.{
  Reads, Reads-Decodes, Reads-bind, Reads-map, Reads-last, Reads-many, Reads-u8, Reads-group,
}
use ruffle.Swf.Avm2.Varint.{read_u30-write_u30, Reads-index}
use ruffle.Swf.Avm2.Ints.{Reads-i32, IsEncodableInt}
use ruffle.Swf.Avm2.Read.{
  read_namespace, namespace_of, read_namespace_set, read_multiname, multiname_of, read_pool,
  read_constant_pool,
}
use ruffle.Swf.Avm2.Write.{
  write_list, write_pool, write_pool_len, write_namespace, write_namespace_set, write_multiname,
  write_constant_pool,
}

abbrev pub IsU32 : ℕ → Type 0
IsU32 n = n < 2 ^ 32

-- A predicate on the elements serves for each of them.
pub All-imp :
    {A : Type 0} (P Q : A → Type 0) (xs : List A) → ((x : A) → P x → Q x) → All P xs → All Q xs
All-imp P Q [] f h = tt
All-imp P Q (x ∷ xs) f h = (f x h.0, All-imp P Q xs f h.1)

-- A number of elements before the elements.
pub Reads-list :
    {A : Type 0} (p : M A) (w : A → W) (xs : List A)
    → IsU32 (length xs)
    → All (λ x. Reads p (w x) x) xs
    → Reads (read_u30 >>= λ len. read_many len p) (write_list w xs) xs
unfolding write_list
Reads-list p w xs fits h =
    rw (mod-eq_of_lt fits)
      (Reads-bind _ (read_u30-write_u30 (length xs) fits) (Reads-many p w xs h))

-- The same before more, which may depend on the number.
pub Reads-list_then :
    {A B : Type 0} (p : M A) (w : A → W) (xs : List A) (f : ℕ → List A → M B) {v : W} {b : B}
    → IsU32 (length xs)
    → All (λ x. Reads p (w x) x) xs
    → Reads (f (length xs) xs) v b
    → Reads (read_u30 >>= λ len. read_many len p >>= f len) (write_list w xs >> v) b
unfolding write_list
Reads-list_then p w xs f fits h d = Reads-group _ _ _ (
    rw (mod-eq_of_lt fits) (
      Reads-bind (λ len. read_many len p >>= f len) (read_u30-write_u30 (length xs) fits)
        (Reads-bind (f (length xs)) (Reads-many p w xs h) d)))

-- The same, wrapped up.
pub Reads-list_map :
    {A B : Type 0} (p : M A) (w : A → W) (xs : List A) (f : List A → B)
    → IsU32 (length xs)
    → All (λ x. Reads p (w x) x) xs
    → Reads (read_u30 >>= λ len. read_many len p >>= λ xs. pure (f xs)) (write_list w xs) (f xs)
unfolding write_list
Reads-list_map p w xs f fits h = rw (mod-eq_of_lt fits) (
    Reads-bind (λ len. read_many len p >>= λ xs. pure (f xs)) (read_u30-write_u30 (length xs) fits)
      (Reads-map f (Reads-many p w xs h)))

-- All of the bytes are there.
pub Reads-up_to : (bytes : List ℕ) → Reads (read_up_to (length bytes)) (write_all bytes) bytes
unfolding read_up_to
Reads-up_to bytes =
    let exact = Decodes-read_exact bytes in
    Reads-Decodes (
      Decodes-agree exact (λ r rest h.
        ap (λ k. read_exact k r)
          (omega (arith, ap length h.1, length-append exact.bytes rest, exact.counted))))

pub Reads-bytes :
    (bytes : List ℕ)
    → IsU32 (length bytes)
    → Reads
        (read_u30 >>= λ len. read_up_to len)
        (write_u30 (as_u32 (length bytes)) >> write_all bytes)
        bytes
Reads-bytes bytes fits =
    rw (mod-eq_of_lt fits)
      (Reads-bind _ (read_u30-write_u30 (length bytes) fits) (Reads-up_to bytes))

-- The same before more.
pub Reads-bytes_then :
    {B : Type 0} (bytes : List ℕ) (f : List ℕ → M B) {v : W} {b : B}
    → IsU32 (length bytes)
    → Reads (f bytes) v b
    → Reads
        (read_u30 >>= λ len. read_up_to len >>= f)
        ((write_u30 (as_u32 (length bytes)) >> write_all bytes) >> v)
        b
Reads-bytes_then bytes f fits d = Reads-group _ _ _ (
    rw (mod-eq_of_lt fits) (
      Reads-bind (λ len. read_up_to len >>= f) (read_u30-write_u30 (length bytes) fits)
        (Reads-bind f (Reads-up_to bytes) d)))
