-- ===== src/Swf/Avm2/Reads.antt =====
-- When a reader gives back what a writer wrote, for formats that count no bytes.
use ruffle.Prelude.{
  ℕ, ◌≡◌, refl, subst, sym, ap, List, [], ◌∷◌, some, none, All, length, append_assoc,
}
use ruffle.Swf.Read.{M, pure, ◌>>=◌, read_many, read_u8}
use ruffle.Swf.Write.{W, ◌>>◌, write_all, write_each, write_u8}
use ruffle.Swf.Decodes.Fields.{Decodes-read_u8}
use ruffle.Swf.Decodes.{
  Decodes, Decodes-pure, Decodes-bind, Decodes-map, Decodes-result, Decodes-nothing, Decodes-last,
  Decodes-skip, >>-nil,
}

pub record Reads {A : Type 0} (p : M A) (w : W) (a : A) : Type 0 where
  pub size : ℕ
  pub decodes : Decodes p w size a

pub Reads-Decodes : {A : Type 0} {p : M A} {w : W} {n : ℕ} {a : A} → Decodes p w n a → Reads p w a
Reads-Decodes {n = n} d = record { size = n; decodes = d }

pub Reads-pure : {A : Type 0} (a : A) → Reads (pure a) (write_all []) a
Reads-pure a = Reads-Decodes (Decodes-pure a)

pub Reads-bind :
    {A B : Type 0} {p : M A} (f : A → M B) {w v : W} {a : A} {b : B}
    → Reads p w a
    → Reads (f a) v b
    → Reads (p >>= f) (w >> v) b
Reads-bind f d e = Reads-Decodes (Decodes-bind f d.decodes e.decodes)

pub Reads-map :
    {A B : Type 0} {p : M A} {w : W} {a : A} (f : A → B)
    → Reads p w a
    → Reads (p >>= λ x. pure (f x)) w (f a)
Reads-map f d = Reads-Decodes (Decodes-map f d.decodes)

pub Reads-result : {A : Type 0} {p : M A} {w : W} {a b : A} → Reads p w a → a ≡ b → Reads p w b
Reads-result d e = Reads-Decodes (Decodes-result d.decodes e)

-- A read that takes no bytes.
pub Reads-nothing :
    {A B : Type 0} {p : M A} (f : A → M B) {w : W} {a : A} {b : B}
    → Decodes p (write_all []) 0 a
    → Reads (f a) w b
    → Reads (p >>= f) w b
Reads-nothing f d e = Reads-Decodes (Decodes-nothing f d e.decodes)

-- Elements one after the other.
pub Reads-many :
    {A : Type 0} (p : M A) (w : A → W) (xs : List A)
    → All (λ x. Reads p (w x) x) xs
    → Reads (read_many (length xs) p) (write_each w xs) xs
unfolding read_many write_each
Reads-many p w [] h = Reads-pure []
Reads-many p w (x ∷ xs) h = Reads-bind _ h.0 (Reads-map (λ rest. x ∷ rest) (Reads-many p w xs h.1))

-- After the last read only a computation follows.
pub Reads-last :
    {A B : Type 0} {p : M A} (f : A → M B) {w : W} {a : A} {b : B}
    → Reads p w a
    → f a ≡ pure b
    → Reads (p >>= f) w b
Reads-last {B = B} f {b = b} d e =
    Reads-Decodes (
      Decodes-last f d.decodes (subst (λ q. Decodes q (write_all []) 0 b) (sym e) (Decodes-pure b)))

pub Reads-u8 : (n : ℕ) → Reads read_u8 (write_u8 n) n
Reads-u8 n = Reads-Decodes (Decodes-read_u8 n)

>>-assoc : (w v u : W) → (w >> v) >> u ≡ w >> (v >> u)
>>-assoc none v u = refl
>>-assoc (some a) none u = refl
>>-assoc (some a) (some b) none = refl
>>-assoc (some a) (some b) (some c) = ap some (append_assoc a b c)

-- Writes may be grouped.
pub Reads-group :
    {A : Type 0} {p : M A} (w v u : W) {a : A}
    → Reads p (w >> (v >> u)) a
    → Reads p ((w >> v) >> u) a
Reads-group {p = p} w v u {a = a} d = subst (λ k. Reads p k a) (sym (>>-assoc w v u)) d

-- Nothing is written in front.
pub Reads-skip :
    {A : Type 0} {p : M A} {w : W} {a : A} → Reads p w a → Reads p (write_all [] >> w) a
Reads-skip d = Reads-Decodes (Decodes-skip d.decodes)

-- The bytes are not changed by an empty write at the end.
pub Reads-end : {A : Type 0} {p : M A} {w : W} {a : A} → Reads p w a → Reads p (w >> write_all []) a
Reads-end {p = p} {w = w} {a = a} d = subst (λ k. Reads p k a) (sym (>>-nil w)) d
