-- ===== src/Swf/Avm1/Flags.antt =====
-- The flags of ActionDefineFunction2: a word of nine bits, written (swf/src/avm1/write.rs) and taken
-- apart (swf/src/avm1/read.rs).
use ruffle.Prelude.{
  ℕ, ◌<◌, ◌^◌, ◌≡◌, refl, Bool, true, ◌&&◌, has_flag, ltb, ltb→lt, both, both_sound, bit_or, same,
  same→eq, and_left, and_right,
}
use ruffle.Swf.Avm1.Types.{Function}
use ruffle.Swf.Avm1.Read.{function_of}
use ruffle.Swf.Avm1.Write.{flag, function_flags}

-- The nine flags are apart: each is read back from the word that holds them all.
abbrev word : Bool → Bool → Bool → Bool → Bool → Bool → Bool → Bool → Bool → ℕ
word a b c d e f g h i = bit_or (flag a 0b1_00000000) (
    bit_or (flag b 0b10000000) (
      bit_or (flag c 0b1000000) (
        bit_or (flag d 0b100000) (
          bit_or (flag e 0b10000)
            (bit_or (flag f 0b1000) (bit_or (flag g 0b100) (bit_or (flag h 0b10) (flag i 0b1))))))))

kept : Bool → Bool → Bool → Bool → Bool → Bool → Bool → Bool → Bool → Bool
kept a b c d e f g h i =
    let w = word a b c d e f g h i in
    ltb w (2 ^ 16)
    && (same (has_flag w 0b1_00000000) a
        && (same (has_flag w 0b10000000) b
            && (same (has_flag w 0b1000000) c
                && (same (has_flag w 0b100000) d
                    && (same (has_flag w 0b10000) e
                        && (same (has_flag w 0b1000) f
                            && (same (has_flag w 0b100) g
                                && (same (has_flag w 0b10) h && same (has_flag w 0b1) i))))))))

abbrev kept_8 : Bool → Bool → Bool → Bool → Bool → Bool → Bool → Bool → Bool
kept_8 a b c d e f g h = both (kept a b c d e f g h)

abbrev kept_7 : Bool → Bool → Bool → Bool → Bool → Bool → Bool → Bool
kept_7 a b c d e f g = both (kept_8 a b c d e f g)

abbrev kept_6 : Bool → Bool → Bool → Bool → Bool → Bool → Bool
kept_6 a b c d e f = both (kept_7 a b c d e f)

abbrev kept_5 : Bool → Bool → Bool → Bool → Bool → Bool
kept_5 a b c d e = both (kept_6 a b c d e)

abbrev kept_4 : Bool → Bool → Bool → Bool → Bool
kept_4 a b c d = both (kept_5 a b c d)

abbrev kept_3 : Bool → Bool → Bool → Bool
kept_3 a b c = both (kept_4 a b c)

abbrev kept_2 : Bool → Bool → Bool
kept_2 a b = both (kept_3 a b)

abbrev kept_1 : Bool → Bool
kept_1 a = both (kept_2 a)

abbrev kept_0 : Bool
kept_0 = both kept_1

kept_table : kept_0 ≡ true
unfolding kept
kept_table = refl

kept_always : (a b c d e f g h i : Bool) → kept a b c d e f g h i ≡ true
kept_always a b c d e f g h i =
    both_sound (kept a b c d e f g h)
      (both_sound (kept_8 a b c d e f g)
        (both_sound (kept_7 a b c d e f)
          (both_sound (kept_6 a b c d e)
            (both_sound (kept_5 a b c d)
              (both_sound (kept_4 a b c)
                (both_sound (kept_3 a b) (both_sound (kept_2 a) (both_sound kept_1 kept_table a) b)
                  c)
                d)
              e)
            f)
          g)
        h)
      i

word-lt : (a b c d e f g h i : Bool) → word a b c d e f g h i < 2 ^ 16
unfolding kept
word-lt a b c d e f g h i = ltb→lt _ _ (and_left _ _ (kept_always a b c d e f g h i))

-- The nine tests of the reader on the word of the writer.
word-flags :
    (a b c d e f g h i : Bool)
    → (has_flag (word a b c d e f g h i) 0b1_00000000 ≡ a)
      × (has_flag (word a b c d e f g h i) 0b10000000 ≡ b)
      × (has_flag (word a b c d e f g h i) 0b1000000 ≡ c)
      × (has_flag (word a b c d e f g h i) 0b100000 ≡ d)
      × (has_flag (word a b c d e f g h i) 0b10000 ≡ e)
      × (has_flag (word a b c d e f g h i) 0b1000 ≡ f)
      × (has_flag (word a b c d e f g h i) 0b100 ≡ g)
      × (has_flag (word a b c d e f g h i) 0b10 ≡ h)
      × (has_flag (word a b c d e f g h i) 0b1 ≡ i)
unfolding kept
word-flags a b c d e f g h i =
    let k1 = and_right _ _ (kept_always a b c d e f g h i) in
    let k2 = and_right _ _ k1 in
    let k3 = and_right _ _ k2 in
    let k4 = and_right _ _ k3 in
    let k5 = and_right _ _ k4 in
    let k6 = and_right _ _ k5 in
    let k7 = and_right _ _ k6 in
    let k8 = and_right _ _ k7 in
    (
      same→eq _ a (and_left _ _ k1),
      same→eq _ b (and_left _ _ k2),
      same→eq _ c (and_left _ _ k3),
      same→eq _ d (and_left _ _ k4),
      same→eq _ e (and_left _ _ k5),
      same→eq _ f (and_left _ _ k6),
      same→eq _ g (and_left _ _ k7),
      same→eq _ h (and_left _ _ k8),
      same→eq _ i (and_right _ _ k8),
    )

-- The reader's function is the writer's.
pub function_of-function_flags :
    (f : Function) → function_of f.name f.params f.register_count (function_flags f) f.actions ≡ f
unfolding function_of function_flags
function_of-function_flags f =
    let flags =
      word-flags f.preload_global f.preload_parent f.preload_root f.suppress_super f.preload_super
        f.suppress_arguments f.preload_arguments f.suppress_this f.preload_this in
    λ i. record f {
      preload_global = flags.0 i;
      preload_parent = flags.1 i;
      preload_root = flags.2 i;
      suppress_super = flags.3 i;
      preload_super = flags.4 i;
      suppress_arguments = flags.5 i;
      preload_arguments = flags.6 i;
      suppress_this = flags.7 i;
      preload_this = flags.8 i;
    }

pub function_flags-lt : (f : Function) → function_flags f < 2 ^ 16
unfolding function_flags
function_flags-lt f =
    word-lt f.preload_global f.preload_parent f.preload_root f.suppress_super f.preload_super
      f.suppress_arguments f.preload_arguments f.suppress_this f.preload_this
