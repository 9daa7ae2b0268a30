-- ===== src/Kfifo/Puts.antt =====
-- The steps of the thread that puts into the queue of clib/kfifo.c, beside one that gets.
use native.Mathlib.Nat.{mod-lt}
use chenghualearning.Common.{
  ℕ, ◌+◌, ◌-◌, ◌%◌, ◌≤◌, ◌<◌, ◌≡◌, refl, sym, ap, ◌∙◌, false, List, ◌++◌, arith, ◌==◌, dec_lt,
  length, get_or, set, take, length-set, get_or-set, append_assoc, tabulate-add, tabulate_congr,
  take-eq-tabulate, Returns, ok,
}
use chenghualearning.Kfifo.Valid.{used, IsValid, contents, size_bounds}
use chenghualearning.Kfifo.Apart.{apart, byte_at-mod, byte_at-lt, behind}
use chenghualearning.Kfifo.Interleaved.{IsPutting, IsGetting, left, IsSound}
use chenghualearning.Kfifo.Shared.{
  Stage, resting, moving, System, byte_at, put_start, put_stage, put_next,
}
use chenghualearning.Kfifo.{Kfifo, u32, u32_sub}

-- The write of byte `i` of a call.
module _ {f : Kfifo} (v : IsValid f) (i b : ℕ) (free : used f + i < f.size) where
  abbrev stored : Kfifo
  stored = record f { buf = set f.buf ((f.in_pos + i) % f.size) b }

  target-lt : (f.in_pos + i) % f.size < length f.buf
  target-lt = rw v.whole (mod-lt (f.in_pos + i) ((size_bounds v).0))

  stored-IsValid : IsValid stored
  stored-IsValid = record {
    exponent = v.exponent;
    power = v.power;
    small = v.small;
    whole = length-set f.buf _ b ∙ v.whole;
    in_range = v.in_range;
    out_range = v.out_range;
    fits = v.fits;
  }

  stored_here : get_or stored.buf ((f.in_pos + i) % f.size) 0 ≡ b
  stored_here = get_or-set f.buf _ ((f.in_pos + i) % f.size) b 0 target-lt ∙ ground arith

  stored_old :
      (j : ℕ)
      → j < used f + i
      → get_or stored.buf ((f.out_pos + j) % f.size) 0 ≡ get_or f.buf ((f.out_pos + j) % f.size) 0
  stored_old j lt =
      let other : ((f.in_pos + i) % f.size == (f.out_pos + j) % f.size) ≡ false =
        rw (behind v i) (apart f.size f.out_pos j (used f + i) ((size_bounds v).0) lt free) in
      get_or-set f.buf _ ((f.out_pos + j) % f.size) b 0 target-lt ∙ rw other refl

  stored_before :
      (j : ℕ)
      → j < i
      → get_or stored.buf ((f.in_pos + j) % f.size) 0 ≡ get_or f.buf ((f.in_pos + j) % f.size) 0
  stored_before j lt = rw (behind v j) (stored_old (used f + j) (omega arith))

  contents-stored : contents stored ≡ contents f
  contents-stored = tabulate_congr (used f) _ _ (λ j h. stored_old j (omega arith))

  stored-IsGetting : (c : Stage) → IsGetting f c → IsGetting stored c
  stored-IsGetting resting g = tt
  stored-IsGetting (moving buf n k) (some_used, large, near, same) =
      (some_used, large, near, λ j h. same j h ∙ sym (stored_old j (omega arith)))

-- The write of the index at the end of a call of `n` bytes.
module _ {f : Kfifo} (v : IsValid f) (n : ℕ) (room : used f + n ≤ f.size) where
  abbrev published : Kfifo
  published = record f { in_pos = u32 (f.in_pos + n) }

  used-published : used published ≡ used f + n
  used-published = omega (arith, v.in_range, v.out_range, size_bounds v)

  published-IsValid : IsValid published
  published-IsValid = record {
    exponent = v.exponent;
    power = v.power;
    small = v.small;
    whole = v.whole;
    in_range = omega arith;
    out_range = v.out_range;
    fits = rw used-published room;
  }

  contents-published :
      (buf : List ℕ)
      → n ≤ length buf
      → ((j : ℕ) → j < n → get_or f.buf ((f.in_pos + j) % f.size) 0 ≡ get_or buf j 0)
      → contents published ≡ contents f ++ take n buf
  contents-published buf large same =
      rw (used-published, tabulate-add)
        (ap (λ l. contents f ++ l)
          (tabulate_congr n _ (λ j. get_or buf j 0)
              (λ j h. ap (λ p. get_or f.buf p 0) (sym (behind v j)) ∙ same j h)
            ∙ sym (take-eq-tabulate n buf 0 large)))

  published-IsGetting : (c : Stage) → IsGetting f c → IsGetting published c
  published-IsGetting resting g = tt
  published-IsGetting (moving buf m k) (some_used, large, near, same) =
      (rw used-published (omega arith), large, near, same)

pub put_start-IsSound :
    (s : System) (buf : List ℕ) (len : ℕ)
    → len ≤ length buf
    → IsSound s
    → IsSound (put_start buf len s)
unfolding put_start
put_start-IsSound s buf len large sound =
    let v = sound.valid in
    let free : u32 (u32_sub s.fifo.size s.fifo.in_pos + s.fifo.out_pos)
        ≡ s.fifo.size - used s.fifo =
      omega (arith, v.in_range, v.out_range, v.fits, size_bounds v) in
    record {
      valid = v;
      order = sound.order;
      getting = sound.getting;
      putting =
          rw free (omega (arith, v.fits), omega arith, omega arith, λ j h. absurd (omega arith));
    }

stage-IsSound :
    (s : System) (p : Stage)
    → IsSound s
    → IsPutting s.fifo p
    → s.producer ≡ p
    → Returns (put_stage p s) (λ t. IsSound t × (left t.producer ≡ left p - 1))
unfolding put_stage
stage-IsSound s resting sound putting at = (s, refl, (sound, omega (arith, ap left at)))
stage-IsSound s (moving buf n i) sound (room, large, near, same) at = elim (dec_lt i n) [
  | yes lt ↦
      (let v = sound.valid in
        let b = get_or buf i 0 in
        let free : used s.fifo + i < s.fifo.size = omega arith in
        let fits : n ≤ s.fifo.size = omega arith in
        let low : byte_at s.fifo s.fifo.in_pos n i < length s.fifo.buf =
          byte_at-lt v s.fifo.in_pos n i fits lt in
        let place = byte_at-mod v s.fifo.in_pos n i fits lt in
        (
          record s { fifo = stored v i b free; producer = moving buf n (i + 1) },
          stores s buf n i lt low (omega arith)
              ∙ ap
                  (λ p. ok (record s {
                    fifo = record s.fifo { buf = set s.fifo.buf p b };
                    producer = moving buf n (i + 1);
                  }))
                  place,
          (
            record {
              valid = stored-IsValid v i b free;
              order = sound.order ∙ ap (λ l. s.received ++ l) (sym (contents-stored v i b free));
              putting = (
                room,
                large,
                omega arith,
                λ j h. elim (dec_lt j i) [
                  | yes before ↦ stored_before v i b free j before ∙ same j before
                  | no not_before ↦ (let e : j ≡ i = omega arith in rw e (stored_here v i b free))
                ],
              );
              getting = stored-IsGetting v i b free s.consumer sound.getting;
            },
            omega arith,
          ),
        ))
  | no not_lt ↦
      (let v = sound.valid in
        let e : i ≡ n = omega arith in
        let same' = λ (j : ℕ) (h : j < n). same j (omega arith) in
        (
          record s { fifo = published v n room; producer = resting; sent = s.sent ++ take n buf },
          ground (arith, not_lt),
          (
            record {
              valid = published-IsValid v n room;
              order =
                  rw (sound.order, contents-published v n room buf large same')
                    (append_assoc s.received (contents s.fifo) (take n buf));
              putting = tt;
              getting = published-IsGetting v n room s.consumer sound.getting;
            },
            omega arith,
          ),
        ))
]
  where
    stores :
        (s : System) (buf : List ℕ) (n i : ℕ)
        → i < n
        → byte_at s.fifo s.fifo.in_pos n i < length s.fifo.buf
        → i < length buf
        → put_stage (moving buf n i) s
          ≡ ok (record s {
            fifo = record s.fifo {
              buf = set s.fifo.buf (byte_at s.fifo s.fifo.in_pos n i) (get_or buf i 0);
            };
            producer = moving buf n (i + 1);
          })
    stores s buf n i lt low near = ground arith

-- In a sound state the producer can go on, inside its arrays; the state stays sound, and one step less
-- is left of its call.
pub put_next-IsSound :
    (s : System)
    → IsSound s
    → Returns (put_next s) (λ t. IsSound t × (left t.producer ≡ left s.producer - 1))
unfolding put_next
put_next-IsSound s sound = stage-IsSound s s.producer sound sound.putting refl
