-- ===== src/Storage/Run.antt =====
-- When a step of the storage thread succeeds.
use fast.Prelude.{
  Bool, List, Option, Option-cases, [], ap, arith, false, if◌then◌else◌, inl, inr, none, not, refl,
  some, true, ℕ, ◌++◌, ◌==◌, ◌||◌, ◌∷◌, ◌≡◌,
}
use fast.Prelude.Int.{negsuc, pos}
use fast.Queue.{Message}
use fast.Time.{TimeStr}
use fast.Storage.{
  Event, Frame, Storage, after_events, fast_msg_average_image, fast_msg_image, handle_message,
  is_exit, storage_worker,
}

abbrev pub is_some {ℓ} : {A : Type ℓ} → Option A → Bool
is_some none = false
is_some (some a) = true

-- While frames are stored there is a directory for them.
abbrev pub is_ready : Storage → Bool
is_ready s = not s.is_storage || is_some s.current

abbrev pub has_code : ℕ → Message Frame → Bool
has_code code m = elim m.event [ negsuc n ↦ false | pos n ↦ n == code ]

-- A message about an image has one.
abbrev pub carries : Message Frame → Bool
carries m =
    not (has_code fast_msg_image m || has_code fast_msg_average_image m) || is_some m.content

abbrev pub observe {ℓ} :
    {A : Type ℓ} → (Storage → List Event → A) → Option (Storage × List Event) → Option A
observe f none = none
observe f (some (s, es)) = some (f s es)

module _ (s : Storage) (m : Message Frame) (now : TimeStr) (ready : is_ready s ≡ true)
    (full : carries m ≡ true) where
  handle_message-is_ready : observe (λ t _. is_ready t) (handle_message s m now) ≡ some true
  unfolding handle_message
  handle_message-is_ready = ground arith

  -- A step on a ready state and a full message succeeds, and leaves a ready state.
  pub handle_message_ready :
      (t : Storage) × (es : List Event) × (handle_message s m now ≡ some (t, es))
      × (is_ready t ≡ true)
  handle_message_ready = elim (Option-cases (handle_message s m now)) [
    | inl e ↦ absurd (ground (arith, handle_message-is_ready))
    | inr ((t, es), e) ↦ (t, es, e, ground (arith, handle_message-is_ready))
  ]

abbrev pub prepend {ℓ} : {A : Type ℓ} → List A → Option (List A) → Option (List A)
prepend xs none = none
prepend xs (some ys) = some (xs ++ ys)

-- What is observed of a run is observed of its first step and of the rest.
pub observe-after_events {ℓ} :
    {A : Type ℓ} (h : List Event → List A)
    → ((es fs : List Event) → h (es ++ fs) ≡ h es ++ h fs)
    → (es : List Event) (r : Option (Storage × List Event))
    → observe (λ _ fs. h fs) (after_events es r) ≡ prepend (h es) (observe (λ _ fs. h fs) r)
observe-after_events h hom es none = refl
observe-after_events h hom es (some (t, fs)) = ap some (hom es fs)

-- The rest of a run counts only if its first message is no exit.
pub worker-cons :
    (s t : Storage) (m : Message Frame) (now : TimeStr) (ms : List (Message Frame × TimeStr))
    (es : List Event)
    → handle_message s m now ≡ some (t, es)
    → storage_worker s ((m, now) ∷ ms)
      ≡ (if is_exit m then some (s, []) else after_events es (storage_worker t ms))
unfolding storage_worker
worker-cons s t m now ms es e = rw (e, storage_worker)

pub worker-nil : (s : Storage) → storage_worker s [] ≡ some (s, [])
unfolding storage_worker
worker-nil s = refl
