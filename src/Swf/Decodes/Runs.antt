-- ===== src/Swf/Decodes/Runs.antt =====
-- What a reader does with what a writer wrote, whatever its outcome: errors and panics included.
use ruffle.Prelude.{ℕ, ◌+◌, ◌≡◌, refl, ap, ap₂, subst, ◌∙◌, List, ◌++◌, some, length, length-append}
use ruffle.Swf.Error.{Result}
use ruffle.Swf.Read.{Reader, M, ◌>>=◌, advance}
use ruffle.Swf.Write.{W, ◌>>◌, write_all}
use ruffle.Swf.Decodes.{
  Decodes, Ahead, Ahead-assoc, Ahead-advance, Ahead-reader_at, reader_at, >>-some, continue-ok,
  advance_add,
}

-- `w` writes `n` bytes, and where these lie ahead `p` has the outcome `out` and moves the cursor by `k`.
pub record Runs {A : Type 0} (p : M A) (w : W) (n : ℕ) (out : Result A) (k : ℕ) : Type 0 where
  pub bytes : List ℕ
  pub written : w ≡ some bytes
  pub counted : length bytes ≡ n
  pub runs : (r : Reader) (rest : List ℕ) → Ahead r (bytes ++ rest) → p r ≡ (out, advance k r)

pub Runs-more :
    {A : Type 0} {p : M A} {w : W} {n : ℕ} {out : Result A} {k : ℕ} (more : List ℕ)
    → Runs p w n out k
    → Runs p (w >> write_all more) (n + length more) out k
Runs-more {w = w} more d = record {
  bytes = d.bytes ++ more;
  written = >>-some d.bytes more w (write_all more) d.written refl;
  counted = length-append d.bytes more ∙ ap (λ c. c + length more) d.counted;
  runs = λ r rest h. d.runs r (more ++ rest) (Ahead-assoc r d.bytes more rest h);
}

pub Runs-bind :
    {A B : Type 0} {p : M A} (f : A → M B) {w v : W} {m n k : ℕ} {a : A} {out : Result B}
    → Decodes p w m a
    → Runs (f a) v n out k
    → Runs (p >>= f) (w >> v) (m + n) out (m + k)
Runs-bind {p = p} f {w = w} {v = v} {m = m} {k = k} {out = out} d e = record {
  bytes = d.bytes ++ e.bytes;
  written = >>-some d.bytes e.bytes w v d.written e.written;
  counted = length-append d.bytes e.bytes ∙ ap₂ ◌+◌ d.counted e.counted;
  runs = λ r rest h.
      let here = Ahead-assoc r d.bytes e.bytes rest h in
      let ahead = Ahead-advance r d.bytes (e.bytes ++ rest) here in
      continue-ok p f r (d.reads r (e.bytes ++ rest) here)
      ∙ e.runs (advance m r) rest
          (subst (λ n. Ahead (advance n r) (e.bytes ++ rest)) d.counted ahead)
      ∙ ap (λ n. (out, n)) (advance_add m k r);
}

pub Runs-count :
    {A : Type 0} {p : M A} {w : W} {m : ℕ} (n : ℕ) {out : Result A} {k : ℕ}
    → Runs p w m out k
    → m ≡ n
    → Runs p w n out k
Runs-count {p = p} {w = w} n {out = out} {k = k} d e = subst (λ c. Runs p w c out k) e d

pub Runs-at :
    {A : Type 0} {p : M A} {w : W} {n : ℕ} {out : Result A} {k : ℕ}
    → Runs p w n out k
    → (before after : List ℕ)
    → (bytes : List ℕ) × (w ≡ some bytes)
      × (length bytes ≡ n)
      × (p (reader_at before bytes after) ≡ (out, advance k (reader_at before bytes after)))
Runs-at d before after =
    (d.bytes, d.written, d.counted, d.runs _ after (Ahead-reader_at before d.bytes after))
