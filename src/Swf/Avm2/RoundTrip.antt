-- ===== src/Swf/Avm2/RoundTrip.antt =====
-- What the ABC writer (swf/src/avm2/write.rs) writes, the ABC reader (swf/src/avm2/read.rs) reads back.
use ruffle.Prelude.{ℕ, ◌<◌, ◌^◌, ◌≡◌, ℤ, List, [], ◌∷◌, some, All, length, map, subst}
use ruffle.Swf.Error.{ok}
use ruffle.Swf.ByteOrder.{ByteOrder}
use ruffle.Swf.Read.{M, read_many, read_u16, advance}
use ruffle.Swf.Write.{W, write_each, write_u16}
use ruffle.Swf.Decodes.{Decodes-at, reader_at}
use ruffle.Swf.Decodes.Fields.{Decodes-read_u16}
use ruffle.Swf.Avm2.Types.{AbcFile}
use ruffle.Swf.Avm2.Op.{Op}
use ruffle.Swf.Avm2.Primitives.{read_u30, write_u30, read_i32, write_i32}
use ruffle.Swf.Avm2.ReadOp.{read_op}
use ruffle.Swf.Avm2.WriteOp.{write_op}
use ruffle.Swf.Avm2.Read.{
  read, read_method, read_metadata, read_instance, read_class, read_script, read_method_body,
}
use ruffle.Swf.Avm2.Write.{
  write, write_method, write_metadata, write_instance, write_class, write_script, write_method_body,
}
use ruffle.Swf.Avm2.Reads.{Reads, Reads-Decodes, Reads-bind, Reads-map, Reads-many, Reads-pure}
use ruffle.Swf.Avm2.Varint.{read_u30-write_u30}
use ruffle.Swf.Avm2.Ints.{Reads-i32, IsEncodableInt}
use ruffle.Swf.Avm2.Ops.{IsEncodableOp}
use ruffle.Swf.Avm2.Ops.Reading.{Reads-op}
use ruffle.Swf.Avm2.Pool.{IsU32, All-imp, Reads-list_then, Reads-list_map}
use ruffle.Swf.Avm2.Pool.Entries.{IsEncodableConstantPool, Reads-constant_pool}
use ruffle.Swf.Avm2.Values.{IsEncodableMetadata, Reads-metadata}
use ruffle.Swf.Avm2.Traits.{
  IsEncodableInstance, Reads-instance, IsEncodableClass, Reads-class, IsEncodableScript,
  Reads-script,
}
use ruffle.Swf.Avm2.Methods.{
  IsEncodableMethod, Reads-same_method, IsEncodableBody, Reads-method_body,
}

-- The elements of a table of a file, of which there are fewer than 2 ^ 32.
abbrev IsEncodableList : {A : Type 0} → (A → Type 0) → List A → Type 0
IsEncodableList P xs = IsU32 (length xs) × All P xs

-- A file whose parts fit their fields, with a class for each instance.
abbrev pub IsEncodableFile : AbcFile → Type 0
IsEncodableFile f =
    (f.minor_version < 2 ^ 16)
    × (f.major_version < 2 ^ 16)
    × IsEncodableConstantPool f.constant_pool
    × IsEncodableList IsEncodableMethod f.methods
    × IsEncodableList IsEncodableMetadata f.metadata
    × IsEncodableList IsEncodableInstance f.instances
    × (length f.classes ≡ length f.instances)
    × All IsEncodableClass f.classes
    × IsEncodableList IsEncodableScript f.scripts
    × IsEncodableList IsEncodableBody f.method_bodies

-- As many of the elements as another table has.
Reads-as_many :
    {A : Type 0} (p : M A) (w : A → W) (n : ℕ) (xs : List A)
    → length xs ≡ n
    → All (λ x. Reads p (w x) x) xs
    → Reads (read_many n p) (write_each w xs) xs
Reads-as_many p w n xs e h =
    subst (λ k. Reads (read_many k p) (write_each w xs) xs) e (Reads-many p w xs h)

module _ ⦃bo : ByteOrder⦄ where
  Reads-u16 : (n : ℕ) → n < 2 ^ 16 → Reads read_u16 (write_u16 n) n
  Reads-u16 n h = Reads-Decodes (Decodes-read_u16 n h)

  Reads-file : (f : AbcFile) → IsEncodableFile f → Reads read (write f) f
  unfolding read write
  Reads-file f
        (
          minor,
          major,
          pool,
          (fits_methods, methods),
          (fits_metadata, metadata),
          (fits_instances, instances),
          same,
          classes,
          (fits_scripts, scripts),
          (fits_bodies, bodies),
        ) =
      Reads-bind _ (Reads-u16 f.minor_version minor) (
        Reads-bind _ (Reads-u16 f.major_version major) (
          Reads-bind _ (Reads-constant_pool f.constant_pool pool) (
            Reads-list_then read_method write_method f.methods _ fits_methods
              (All-imp IsEncodableMethod _ f.methods Reads-same_method methods)
              (Reads-list_then read_metadata write_metadata f.metadata _ fits_metadata
                (All-imp IsEncodableMetadata _ f.metadata Reads-metadata metadata)
                (Reads-list_then read_instance write_instance f.instances _ fits_instances
                  (All-imp IsEncodableInstance _ f.instances Reads-instance instances)
                  (Reads-bind _
                    (Reads-as_many read_class write_class (length f.instances) f.classes same
                      (All-imp IsEncodableClass _ f.classes Reads-class classes))
                    (Reads-list_then read_script write_script f.scripts _ fits_scripts
                      (All-imp IsEncodableScript _ f.scripts Reads-script scripts)
                      (Reads-list_map read_method_body write_method_body f.method_bodies _
                        fits_bodies
                        (All-imp IsEncodableBody _ f.method_bodies Reads-method_body bodies)))))))))

  -- For every ABC file within `IsEncodableFile`, at every place of every buffer: `write` does not
  -- panic, and where its bytes stand `read` returns that file and moves just past them.
  pub read-write :
      (file : AbcFile) (before after : List ℕ)
      → IsEncodableFile file
      → (bytes : List ℕ) × (write file ≡ some bytes)
        × (read (reader_at before bytes after)
            ≡ (ok file, advance (length bytes) (reader_at before bytes after)))
  read-write file before after h = Decodes-at (Reads-file file h).decodes before after

-- For every instruction within `IsEncodableOp`, at every place of every buffer: `write_op` does not
-- panic, and where its bytes stand `read_op` returns that instruction and moves just past them.
pub read_op-write_op :
    (op : Op) (before after : List ℕ)
    → IsEncodableOp op
    → (bytes : List ℕ) × (write_op op ≡ some bytes)
      × (read_op (reader_at before bytes after)
          ≡ (ok (some op), advance (length bytes) (reader_at before bytes after)))
read_op-write_op op before after h = Decodes-at (Reads-op op h).decodes before after

Reads-ops :
    (ops : List Op)
    → All IsEncodableOp ops
    → Reads (read_many (length ops) read_op) (write_each write_op ops) (map some ops)
unfolding read_many write_each
Reads-ops [] h = Reads-pure []
Reads-ops (op ∷ ops) (h, hs) =
    Reads-bind _ (Reads-op op h) (Reads-map (λ rest. some op ∷ rest) (Reads-ops ops hs))

-- Instructions within `IsEncodableOp`, written one after the other, are read back in order by as
-- many calls of `read_op`, which stop where the bytes stop.
pub read_ops-write_ops :
    (ops : List Op) (before after : List ℕ)
    → All IsEncodableOp ops
    → (bytes : List ℕ) × (write_each write_op ops ≡ some bytes)
      × (read_many (length ops) read_op (reader_at before bytes after)
          ≡ (ok (map some ops), advance (length bytes) (reader_at before bytes after)))
read_ops-write_ops ops before after h = Decodes-at (Reads-ops ops h).decodes before after

-- Every number below 2 ^ 32, at every place of every buffer: `write_u30` does not panic, and where its
-- bytes stand `read_u30` returns that number and moves just past them.
pub read_u30-write_u30_at :
    (n : ℕ) (before after : List ℕ)
    → n < 2 ^ 32
    → (bytes : List ℕ) × (write_u30 n ≡ some bytes)
      × (read_u30 (reader_at before bytes after)
          ≡ (ok n, advance (length bytes) (reader_at before bytes after)))
read_u30-write_u30_at n before after h = Decodes-at (read_u30-write_u30 n h).decodes before after

-- For every integer within `IsEncodableInt`, which takes at most four groups of seven bits and has its
-- sign as the highest bit of the last, at every place of every buffer: `write_i32` does not panic, and
-- where its bytes stand `read_i32` returns that integer and moves just past them.
pub read_i32-write_i32 :
    (n : ℤ) (before after : List ℕ)
    → IsEncodableInt n
    → (bytes : List ℕ) × (write_i32 n ≡ some bytes)
      × (read_i32 (reader_at before bytes after)
          ≡ (ok n, advance (length bytes) (reader_at before bytes after)))
read_i32-write_i32 n before after h = Decodes-at (Reads-i32 n h).decodes before after
