-- ===== src/Base/Cycle.antt =====
-- The fixed arrays that the program writes round and round, against the list of all values written.
use Prim.Native.Nat.{min}
use native.Mathlib.Nat.{mod-add-mod, mod-eq_of_lt, mod-eq-sub-mod, add-mod_right, mod-lt}
use native.Mathlib.Decide.{dec_lt}
use Prim.Native.Nat.{ℕ, zero, suc, ◌+◌, ◌-◌, ◌%◌, ◌≤◌, ◌<◌}
use mathlib.Core.Path.{◌≡◌, refl, sym, ap, ◌∙◌}
use mathlib.Core.Logic.{◌≢◌}
use mathlib.Core.List.{List, [], ◌∷◌, ◌++◌}
use native.Mathlib.Omega.{arith}
use scalp_bot_os.Base.Tests.{ltb, if◌then◌else◌}
use scalp_bot_os.Base.Lists.{
  length, get_or, set, replicate, length-append, length-set, length-replicate, get_or-set_self,
  get_or-set_ne,
}

-- Fewer than `s` steps round the ring do not come back to the start.
mod-ne : {s : ℕ} (j d : ℕ) → 0 < d → d < s → (j + d) % s ≢ j % s
mod-ne {s} j d hd hs e =
    let r : (j % s + d) % s ≡ j % s = mod-add-mod j s d ∙ e in
    let below : j % s < s = mod-lt j (omega arith) in
    elim (dec_lt (j % s + d) s) [
      | yes p ↦ omega (arith, mod-eq_of_lt p)
      | no p ↦ omega (
        arith,
        mod-eq-sub-mod {n = j % s + d} {m = s} (omega arith),
        mod-eq_of_lt {n = j % s + d - s} {m = s} (omega arith),
      )
    ]

-- The index `head - n + size`, taken round, is `n` steps before the end of the history.
pub back-mod : (l n s : ℕ) → n ≤ s → n ≤ l → (l % s + s - n) % s ≡ (l - n) % s
back-mod l n s hs hl =
    ap (λ k. k % s) (omega arith)
    ∙ mod-add-mod l s (s - n)
    ∙ ap (λ k. k % s) (omega arith)
    ∙ add-mod_right (l - n) s

module _ {A : Type 0} where
  -- An array of `size` cells with the place of the next write, after the values `ts`.
  pub record Cycle (buf : List A) (size head count : ℕ) (z : A) (ts : List A) : Type 0 where
    pub storage : length buf ≡ size
    pub room : 0 < size
    pub head_at : head ≡ length ts % size
    pub count_at : count ≡ min (length ts) size
    pub cells :
        (j : ℕ) → j < length ts → length ts ≤ j + size → get_or buf (j % size) z ≡ get_or ts j z

  pub get_or-append_old :
      (ts : List A) (t z : A) (j : ℕ) → j < length ts → get_or (ts ++ (t ∷ [])) j z ≡ get_or ts j z
  get_or-append_old [] t z j h = elim h [ ]
  get_or-append_old (x ∷ ts) t z zero h = refl
  get_or-append_old (x ∷ ts) t z (suc j) h = get_or-append_old ts t z j (omega arith)

  pub get_or-append_new :
      (ts : List A) (t z : A) (j : ℕ) → j ≡ length ts → get_or (ts ++ (t ∷ [])) j z ≡ t
  get_or-append_new [] t z zero h = refl
  get_or-append_new [] t z (suc j) h = absurd (omega arith)
  get_or-append_new (x ∷ ts) t z zero h = absurd (omega arith)
  get_or-append_new (x ∷ ts) t z (suc j) h = get_or-append_new ts t z j (omega arith)

  pub replicate-Cycle : (c : ℕ) (z : A) → 0 < c → Cycle (replicate c z) c 0 0 z []
  replicate-Cycle c z h = record {
    storage = length-replicate c z;
    room = h;
    head_at = sym (mod-eq_of_lt h);
    count_at = omega arith;
    cells = λ j p q. elim p [ ];
  }

  pub set-Cycle :
      {buf : List A} {size head count : ℕ} {z : A} {ts : List A} (t : A)
      → Cycle buf size head count z ts
      → Cycle
          (set buf head t)
          size
          ((head + 1) % size)
          (if ltb count size then count + 1 else count)
          z
          (ts ++ (t ∷ []))
  set-Cycle {buf} {size} {head} {count} {z} {ts} t r = record {
    storage = length-set buf head t ∙ r.storage;
    room = r.room;
    head_at =
        ap (λ k. (k + 1) % size) r.head_at
        ∙ mod-add-mod (length ts) size 1
        ∙ ap (λ k. k % size) (sym (length-append ts (t ∷ [])));
    count_at =
        let more : length (ts ++ (t ∷ [])) ≡ length ts + 1 = length-append ts (t ∷ []) in
        let before : count ≡ min (length ts) size = r.count_at in ground arith;
    cells = cell;
  }
    where
      more : length (ts ++ (t ∷ [])) ≡ length ts + 1
      more = length-append ts (t ∷ [])

      here : head < length buf
      here = rw (r.head_at, r.storage) (mod-lt (length ts) r.room)

      cell :
          (j : ℕ)
          → j < length (ts ++ (t ∷ []))
          → length (ts ++ (t ∷ [])) ≤ j + size
          → get_or (set buf head t) (j % size) z ≡ get_or (ts ++ (t ∷ [])) j z
      cell j p q = elim (dec_lt j (length ts)) [
        | yes old ↦
            let far : length ts % size ≢ j % size = λ e.
              mod-ne j (length ts - j) (omega arith) (omega (arith, more))
                (ap (λ k. k % size) (omega arith) ∙ e) in
            get_or-set_ne buf head (j % size) t z (rw r.head_at far)
            ∙ r.cells j old (omega (arith, more))
            ∙ sym (get_or-append_old ts t z j old)
        | no new ↦
            let at : j ≡ length ts = omega (arith, more) in
            ap (λ k. get_or (set buf head t) k z) (ap (λ k. k % size) at ∙ sym r.head_at)
            ∙ get_or-set_self buf head t z here
            ∙ sym (get_or-append_new ts t z j at)
      ]

  -- The cell `n` steps before the place of the next write holds the value written `n`-th last.
  pub get_or-back :
      {buf : List A} {size head count : ℕ} {z : A} {ts : List A} (n : ℕ)
      → Cycle buf size head count z ts
      → 0 < n
      → n ≤ size
      → n ≤ length ts
      → get_or buf ((head + size - n) % size) z ≡ get_or ts (length ts - n) z
  get_or-back {buf} {size} {head} {count} {z} {ts} n r h fits held =
      ap (λ k. get_or buf ((k + size - n) % size) z) r.head_at
      ∙ ap (λ k. get_or buf k z) (back-mod (length ts) n size fits held)
      ∙ r.cells (length ts - n) (omega arith) (omega arith)
