-- ===== src/Qoffload/Forward/Ids.antt =====
-- The task ids that `Forward::nextTaskId` gives out.
use mqss_integration_deploym.Base.{ℕ, zero, suc, ◌+◌, ◌*◌, ◌^◌, ◌<◌, ◌≡◌, ◌≢◌, refl, arith}
use mqss_integration_deploym.Qoffload.Forward.{Forward, next_task_id}

-- An id that has not wrapped.
abbrev pub plain_id : ℕ → ℕ → ℕ
plain_id uid index = index * 10000 + uid

-- Two calls anywhere give different ids: two calls of one instance, and calls of two instances whose
-- numbers are below 10000. This holds as long as the ids stay below 2 ^ 64.
next_task_id-injective :
    (f g : Forward)
    → f.instance_uid < 10000
    → g.instance_uid < 10000
    → plain_id f.instance_uid f.next_task_index < 2 ^ 64
    → plain_id g.instance_uid g.next_task_index < 2 ^ 64
    → (next_task_id f).0 ≡ (next_task_id g).0
    → (f.instance_uid ≡ g.instance_uid) × (f.next_task_index ≡ g.next_task_index)
unfolding next_task_id
next_task_id-injective f g hf hg bf bg e = (ground arith, ground arith)

-- The service after so many calls.
unfoldable pub after_calls : ℕ → Forward → Forward
after_calls zero f = f
after_calls (suc n) f = after_calls n (next_task_id f).1

after_calls_state :
    (n : ℕ) (f : Forward)
    → f.next_task_index + n < 2 ^ 64
    → ((after_calls n f).next_task_index ≡ f.next_task_index + n)
      × ((after_calls n f).instance_uid ≡ f.instance_uid)
unfolding after_calls next_task_id
after_calls_state zero f h = (omega arith, refl)
after_calls_state (suc n) f h =
    let step : (next_task_id f).1.next_task_index ≡ f.next_task_index + 1 = ground arith in
    let ih = after_calls_state n (next_task_id f).1 (ground arith) in
    (ground (arith, step, ih), ih.1)

-- No instance gives an id out twice: two different calls of one instance give different ids, as long
-- as the ids stay below 2 ^ 64.
pub calls_distinct :
    (f : Forward) (m n : ℕ)
    → f.instance_uid < 10000
    → plain_id f.instance_uid (f.next_task_index + m) < 2 ^ 64
    → plain_id f.instance_uid (f.next_task_index + n) < 2 ^ 64
    → m ≢ n
    → (next_task_id (after_calls m f)).0 ≢ (next_task_id (after_calls n f)).0
calls_distinct f m n u bm bn ne e =
    let (im, um) = after_calls_state m f (omega arith) in
    let (jn, un) = after_calls_state n f (omega arith) in
    let same =
      next_task_id-injective (after_calls m f) (after_calls n f) (rw um u) (rw un u)
        (rw (um, im) bm) (rw (un, jn) bn) e in
    ne (omega (arith, same.1, im, jn))
