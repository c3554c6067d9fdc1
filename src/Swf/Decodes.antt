-- ===== src/Swf/Decodes.antt =====
-- When a reader gives back what a writer wrote, whatever follows it: the predicate, and a rule for
-- each way in which readers and writers are put together.
pub mod Fields
pub mod Runs
use ruffle.Prelude.{
  ℕ, ◌+◌, ◌-◌, ◌<◌, ◌^◌, ◌≡◌, refl, sym, ap, ap₂, subst, ◌∙◌, List, [], ◌∷◌, ◌++◌, some, arith,
  none, length, length-append, drop, drop-drop, take-append_length, drop-append_length,
  append_assoc, take, ◌≤◌, le→leb, ne→==, All, length-take, take-append-drop, length-drop, ℤ,
  FitsSigned, append-nil, ◌≢◌, sum_of, true,
}
use ruffle.Swf.Error.{ok}
use ruffle.Swf.ByteOrder.{ByteOrder, Codec}
use ruffle.Swf.Read
use ruffle.Swf.Read.{
  Reader, M, pure, ◌>>=◌, remaining, advance, read_exact, read_u8, read_slice, read_c_string,
  read_u16, read_i16, read_i32, read_f32, read_f64, swap_words, continue, read_many, find_zero,
  read_with, position, slice_of, set_position, find_terminator, string_from, from_utf8,
}
use ruffle.Swf.Write.{
  W, ◌>>◌, write_all, write_u8, write_c_string, write_each, write_u16, write_i16, write_i32,
  write_f32, write_f64,
}
use ruffle.Swf.Utf8.{is_utf8}

-- The cursor stands in its buffer, with these bytes in front of it.
abbrev pub Ahead : Reader → List ℕ → Type 0
Ahead r bytes = (r.pos ≤ length r.input) × (remaining r ≡ bytes)

-- `w` writes `n` bytes, and where these lie ahead `p` reads the value `a` and moves behind them.
pub record Decodes {A : Type 0} (p : M A) (w : W) (n : ℕ) (a : A) : Type 0 where
  pub bytes : List ℕ
  pub written : w ≡ some bytes
  pub counted : length bytes ≡ n
  pub reads : (r : Reader) (rest : List ℕ) → Ahead r (bytes ++ rest) → p r ≡ (ok a, advance n r)

-- The cursor moves past what lay ahead.
pub Ahead-advance :
    (r : Reader) (bytes rest : List ℕ)
    → Ahead r (bytes ++ rest)
    → Ahead (advance (length bytes) r) rest
Ahead-advance r bytes rest (bound, h) = (
  omega (arith, ap length h, length-drop r.pos r.input, length-append bytes rest),
  sym (drop-drop r.pos (length bytes) r.input)
      ∙ ap (drop (length bytes)) h
      ∙ drop-append_length bytes rest,
)

pub Ahead-assoc :
    (r : Reader) (as' bs cs : List ℕ) → Ahead r ((as' ++ bs) ++ cs) → Ahead r (as' ++ (bs ++ cs))
Ahead-assoc r as' bs cs (bound, h) = (bound, h ∙ append_assoc as' bs cs)

pub advance_add : (m n : ℕ) (r : Reader) → advance n (advance m r) ≡ advance (m + n) r
advance_add m n r = ground arith

-- `◌>>=◌` runs its second part on what the first leaves.
pub continue-ok :
    {A B : Type 0} (p : M A) (f : A → M B) (r : Reader) {a : A} {s : Reader}
    → p r ≡ (ok a, s)
    → (p >>= f) r ≡ f a s
unfolding ◌>>=◌
continue-ok p f r e = ap (continue f) e

pub >>-some : (bs cs : List ℕ) (w v : W) → w ≡ some bs → v ≡ some cs → (w >> v) ≡ some (bs ++ cs)
>>-some bs cs w v hw hv = rw (hw, hv)

pub some_eq : (bs cs : List ℕ) → write_all bs ≡ some cs → bs ≡ cs
some_eq bs cs h = cc

-- What was written lies ahead: so it is read.
pub Decodes-run :
    {A : Type 0} {p : M A} {n : ℕ} {a : A} (written : List ℕ)
    → Decodes p (write_all written) n a
    → (r : Reader) (rest : List ℕ) → Ahead r (written ++ rest)
    → p r ≡ (ok a, advance n r)
Decodes-run written d r rest h =
    d.reads r rest (h.0, h.1 ∙ ap (λ b. b ++ rest) (some_eq written d.bytes d.written))

advance_zero : (r : Reader) → advance 0 r ≡ r
advance_zero r = ground arith

-- Nothing is written and nothing is read.
pub Decodes-pure : {A : Type 0} (a : A) → Decodes (pure a) (write_all []) 0 a
Decodes-pure a = record {
  bytes = [];
  written = refl;
  counted = refl;
  reads = λ r rest h. ground arith;
}

-- The count may be computed in another way.
pub Decodes-count :
    {A : Type 0} {p : M A} {w : W} {m : ℕ} (n : ℕ) {a : A}
    → Decodes p w m a
    → m ≡ n
    → Decodes p w n a
Decodes-count {p = p} {w = w} n {a = a} d e = subst (λ k. Decodes p w k a) e d

-- A read whose continuation may depend on where the reader stood.
pub Decodes-bind_at :
    {A B : Type 0} {p : M A} (f : A → M B) (g : Reader → A → M B) {w v : W} {m n : ℕ} {a : A}
    {b : B}
    → Decodes p w m a
    → Decodes (f a) v n b
    → ((r : Reader) → g r a (advance m r) ≡ f a (advance m r))
    → Decodes (λ r. (p >>= g r) r) (w >> v) (m + n) b
Decodes-bind_at {p = p} f g {w = w} {v = v} {m = m} {n = n} {b = b} d e same = record {
  bytes = d.bytes ++ e.bytes;
  written = >>-some d.bytes e.bytes w v d.written e.written;
  counted = length-append d.bytes e.bytes ∙ ap₂ ◌+◌ d.counted e.counted;
  reads = λ r rest h.
      let here = Ahead-assoc r d.bytes e.bytes rest h in
      let ahead = Ahead-advance r d.bytes (e.bytes ++ rest) here in
      continue-ok p (g r) r (d.reads r (e.bytes ++ rest) here)
      ∙ same r
      ∙ e.reads (advance m r) rest
          (subst (λ k. Ahead (advance k r) (e.bytes ++ rest)) d.counted ahead)
      ∙ ap (λ k. (ok b, k)) (advance_add m n r);
}

-- The value may be known by an equation.
pub Decodes-result :
    {A : Type 0} {p : M A} {w : W} {n : ℕ} {a b : A} → Decodes p w n a → a ≡ b → Decodes p w n b
Decodes-result {p = p} {w = w} {n = n} d e = subst (Decodes p w n) e d

-- One write after another is read by one read after another.
pub Decodes-bind :
    {A B : Type 0} {p : M A} (f : A → M B) {w v : W} {m n : ℕ} {a : A} {b : B}
    → Decodes p w m a
    → Decodes (f a) v n b
    → Decodes (p >>= f) (w >> v) (m + n) b
Decodes-bind f d e = Decodes-bind_at f (λ _. f) d e (λ r. refl)

-- A result that is only wrapped up.
pub Decodes-map :
    {A B : Type 0} {p : M A} {w : W} {n : ℕ} {a : A} (f : A → B)
    → Decodes p w n a
    → Decodes (p >>= λ x. pure (f x)) w n (f a)
Decodes-map {p = p} f d = record {
  bytes = d.bytes;
  written = d.written;
  counted = d.counted;
  reads = λ r rest h. continue-ok p _ r (d.reads r rest h);
}

pub Decodes-read_exact :
    (bytes : List ℕ) → Decodes (read_exact (length bytes)) (write_all bytes) (length bytes) bytes
unfolding read_exact
Decodes-read_exact bytes = record {
  bytes = bytes;
  written = refl;
  counted = refl;
  reads = λ r rest h. exact r rest h;
}
  where
    exact :
        (r : Reader) (rest : List ℕ)
        → Ahead r (bytes ++ rest)
        → read_exact (length bytes) r ≡ (ok bytes, advance (length bytes) r)
    exact r rest (bound, h) = rw (
      h,
      take-append_length,
      le→leb (length bytes) (length (bytes ++ rest)) (omega (arith, length-append bytes rest)),
    )

-- A read whose value is dropped, before another.
pub Decodes-then :
    {A B : Type 0} {p : M A} {q : M B} {w v : W} {m n : ℕ} {a : A} {b : B}
    → Decodes p w m a
    → Decodes q v n b
    → Decodes (Read.◌>>◌ p q) (w >> v) (m + n) b
unfolding Read.◌>>◌
Decodes-then {q = q} d e = Decodes-bind (λ _. q) d e

pub >>-nil : (w : W) → (w >> write_all []) ≡ w
>>-nil none = refl
>>-nil (some bytes) = ap some (append-nil bytes)

-- An empty write at the end may be left out.
pub Decodes-nil :
    {A : Type 0} {p : M A} {w : W} {n : ℕ} {a : A}
    → Decodes p (w >> write_all []) n a
    → Decodes p w n a
Decodes-nil {p = p} {w = w} {n = n} {a = a} d = subst (λ v. Decodes p v n a) (>>-nil w) d

-- A read that needs no bytes.
pub Decodes-nothing :
    {A B : Type 0} {p : M A} (f : A → M B) {w : W} {n : ℕ} {a : A} {b : B}
    → Decodes p (write_all []) 0 a
    → Decodes (f a) w n b
    → Decodes (p >>= f) w n b
Decodes-nothing {p = p} f d e = record {
  bytes = e.bytes;
  written = e.written;
  counted = e.counted;
  reads = λ r rest h.
      continue-ok p f r (Decodes-run [] d r (e.bytes ++ rest) h)
      ∙ ap (f _) (advance_zero r)
      ∙ e.reads r rest h;
}

nil->> : (w : W) → (write_all [] >> w) ≡ w
nil->> none = refl
nil->> (some bytes) = refl

-- An empty write at the front may be left out.
pub Decodes-skip :
    {A : Type 0} {p : M A} {w : W} {n : ℕ} {a : A}
    → Decodes p w n a
    → Decodes p (write_all [] >> w) n a
Decodes-skip {p = p} {w = w} {n = n} {a = a} d = subst (λ v. Decodes p v n a) (sym (nil->> w)) d

-- A computation after the last byte.
pub Decodes-last :
    {A B : Type 0} {p : M A} (f : A → M B) {w : W} {n : ℕ} {a : A} {b : B}
    → Decodes p w n a
    → Decodes (f a) (write_all []) 0 b
    → Decodes (p >>= f) w n b
Decodes-last f {n = n} d e = Decodes-count n (Decodes-nil (Decodes-bind f d e)) (omega arith)

-- A reader that runs alike wherever the bytes lie ahead.
pub Decodes-agree :
    {A : Type 0} {p q : M A} {w : W} {n : ℕ} {a : A} (d : Decodes p w n a)
    → ((r : Reader) (rest : List ℕ) → Ahead r (d.bytes ++ rest) → q r ≡ p r)
    → Decodes q w n a
Decodes-agree d same = record {
  bytes = d.bytes;
  written = d.written;
  counted = d.counted;
  reads = λ r rest h. same r rest h ∙ d.reads r rest h;
}

-- A buffer with `bytes` between what stands before and after, and a cursor in front of them.
abbrev pub reader_at : List ℕ → List ℕ → List ℕ → Reader
reader_at before bytes after = record { input = before ++ (bytes ++ after); pos = length before }

pub Ahead-reader_at :
    (before bytes after : List ℕ) → Ahead (reader_at before bytes after) (bytes ++ after)
Ahead-reader_at before bytes after = (
  omega (arith, length-append before (bytes ++ after)),
  drop-append_length before (bytes ++ after),
)

-- `Decodes` at a place in a buffer.
pub Decodes-at :
    {A : Type 0} {p : M A} {w : W} {n : ℕ} {a : A}
    → Decodes p w n a
    → (before after : List ℕ)
    → (bytes : List ℕ) × (w ≡ some bytes)
      × (p (reader_at before bytes after)
          ≡ (ok a, advance (length bytes) (reader_at before bytes after)))
Decodes-at {a = a} d before after = (
  d.bytes,
  d.written,
  d.reads _ after (Ahead-reader_at before d.bytes after)
      ∙ ap (λ k. (ok a, advance k (reader_at before d.bytes after))) (sym d.counted),
)
