-- ===== src/Kfifo/Gets.antt =====
-- The steps of the thread that gets from the queue of clib/kfifo.c, beside one that puts.
use native.Mathlib.Nat.{mod-add-mod}
use chenghualearning.Common.{
  ℕ, ◌+◌, ◌-◌, ◌%◌, ◌≤◌, ◌<◌, ◌≡◌, refl, sym, ap, ◌∙◌, false, List, ◌++◌, arith, ◌==◌, dec_lt,
  length, get_or, set, take, drop, length-set, get_or-set, append_assoc, take-append-drop,
  tabulate_congr, take-eq-tabulate, take-tabulate, drop-tabulate, Returns, ok,
}
use chenghualearning.Kfifo.Valid.{used, IsValid, contents, size_bounds, mod-u32}
use chenghualearning.Kfifo.Apart.{byte_at-mod, byte_at-lt}
use chenghualearning.Kfifo.Interleaved.{IsPutting, IsGetting, left, IsSound}
use chenghualearning.Kfifo.Shared.{
  Stage, resting, moving, System, byte_at, get_start, get_stage, get_next,
}
use chenghualearning.Kfifo.{Kfifo, u32}

-- The write of the index at the end of a call of `n` bytes.
module _ {f : Kfifo} (v : IsValid f) (n : ℕ) (some_used : n ≤ used f) where
  abbrev taken : Kfifo
  taken = record f { out_pos = u32 (f.out_pos + n) }

  used-taken : used taken ≡ used f - n
  used-taken = omega (arith, v.in_range, v.out_range, size_bounds v)

  taken-IsValid : IsValid taken
  taken-IsValid = record {
    exponent = v.exponent;
    power = v.power;
    small = v.small;
    whole = v.whole;
    in_range = v.in_range;
    out_range = omega arith;
    fits = rw used-taken (omega (arith, v.fits));
  }

  shifted : (j : ℕ) → (u32 (f.out_pos + n) + j) % f.size ≡ (f.out_pos + (n + j)) % f.size
  shifted j =
      sym (mod-add-mod (u32 (f.out_pos + n)) f.size j)
      ∙ rw (mod-u32 v, mod-add-mod) (ap (λ x. x % f.size) (omega arith))

  contents-taken : contents taken ≡ drop n (contents f)
  contents-taken =
      rw (used-taken, drop-tabulate n (used f) _ some_used)
        (tabulate_congr (used f - n) _ _ (λ j h. ap (λ i. get_or f.buf i 0) (shifted j)))

  taken-IsPutting : (p : Stage) → IsPutting f p → IsPutting taken p
  taken-IsPutting resting g = tt
  taken-IsPutting (moving buf m i) (room, large, near, same) =
      (rw used-taken (omega arith), large, near, same)

  take-moved :
      (buf : List ℕ)
      → n ≤ length buf
      → ((j : ℕ) → j < n → get_or buf j 0 ≡ get_or f.buf ((f.out_pos + j) % f.size) 0)
      → take n buf ≡ take n (contents f)
  take-moved buf large same =
      take-eq-tabulate n buf 0 large
      ∙ tabulate_congr n _ _ same
      ∙ sym (take-tabulate n (used f) _ some_used)

pub get_start-IsSound :
    (s : System) (buf : List ℕ) (len : ℕ)
    → len ≤ length buf
    → IsSound s
    → IsSound (get_start buf len s)
unfolding get_start
get_start-IsSound s buf len large sound = record {
  valid = sound.valid;
  order = sound.order;
  putting = sound.putting;
  getting = (omega arith, omega arith, omega arith, λ j h. absurd (omega arith));
}

stage-IsSound :
    (s : System) (c : Stage)
    → IsSound s
    → IsGetting s.fifo c
    → s.consumer ≡ c
    → Returns (get_stage c s) (λ t. IsSound t × (left t.consumer ≡ left c - 1))
unfolding get_stage
stage-IsSound s resting sound getting at = (s, refl, (sound, omega (arith, ap left at)))
stage-IsSound s (moving buf n i) sound (some_used, large, near, same) at = elim (dec_lt i n) [
  | yes lt ↦
      (let v = sound.valid in
        let fits : n ≤ s.fifo.size = omega (arith, v.fits) in
        let low : byte_at s.fifo s.fifo.out_pos n i < length s.fifo.buf =
          byte_at-lt v s.fifo.out_pos n i fits lt in
        let b = get_or s.fifo.buf ((s.fifo.out_pos + i) % s.fifo.size) 0 in
        (
          record s { consumer = moving (set buf i b) n (i + 1) },
          loads s buf n i lt low (omega arith)
              ∙ ap
                  (λ p.
                    ok (record s {
                      consumer = moving (set buf i (get_or s.fifo.buf p 0)) n (i + 1);
                    }))
                  (byte_at-mod v s.fifo.out_pos n i fits lt),
          (
            record {
              valid = v;
              order = sound.order;
              putting = sound.putting;
              getting = (
                some_used,
                rw length-set large,
                omega arith,
                λ j h. get_or-set buf i j b 0 (omega arith) ∙ elim (dec_lt j i) [
                  | yes before ↦
                      (let other : (i == j) ≡ false = ground arith in rw other (same j before))
                  | no not_before ↦ (let e : j ≡ i = omega arith in rw e (ground arith))
                ],
              );
            },
            omega arith,
          ),
        ))
  | no not_lt ↦
      (let v = sound.valid in
        let e : i ≡ n = omega arith in
        let same' = λ (j : ℕ) (h : j < n). same j (omega arith) in
        (
          record s {
            fifo = taken v n some_used;
            consumer = resting;
            received = s.received ++ take n buf;
          },
          ground (arith, not_lt),
          (
            record {
              valid = taken-IsValid v n some_used;
              order =
                  sound.order
                  ∙ ap (λ l. s.received ++ l) (sym (take-append-drop n (contents s.fifo)))
                  ∙ rw (contents-taken v n some_used, take-moved v n some_used buf large same')
                      (sym (
                        append_assoc s.received (take n (contents s.fifo))
                          (drop n (contents s.fifo))));
              putting = taken-IsPutting v n some_used s.producer sound.putting;
              getting = tt;
            },
            omega arith,
          ),
        ))
]
  where
    loads :
        (s : System) (buf : List ℕ) (n i : ℕ)
        → i < n
        → byte_at s.fifo s.fifo.out_pos n i < length s.fifo.buf
        → i < length buf
        → get_stage (moving buf n i) s
          ≡ ok (record s {
            consumer =
                moving
                  (set buf i (get_or s.fifo.buf (byte_at s.fifo s.fifo.out_pos n i) 0))
                  n
                  (i + 1);
          })
    loads s buf n i lt low near = ground arith

-- In a sound state the consumer can go on, inside its arrays; the state stays sound, and one step less
-- is left of its call.
pub get_next-IsSound :
    (s : System)
    → IsSound s
    → Returns (get_next s) (λ t. IsSound t × (left t.consumer ≡ left s.consumer - 1))
unfolding get_next
get_next-IsSound s sound = stage-IsSound s s.consumer sound sound.getting refl
