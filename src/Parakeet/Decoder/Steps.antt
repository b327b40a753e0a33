-- ===== src/Parakeet/Decoder/Steps.antt =====
-- The recorded steps of a decoding: their tokens, and how they follow each other.
use ocelotl.Common.{
  ℕ, ◌+◌, ◌≤◌, ◌<◌, ◌≡◌, refl, sym, ◌∙◌, List, [], ◌∷◌, ◌++◌, ◌==◌, if◌then◌else◌, arith,
}
use ocelotl.Parakeet.Decoder.{TdtStep}

-- The tokens of the steps without the blanks, and the frames of these.
abbrev pub step_tokens : ℕ → List TdtStep → List ℕ
step_tokens blank [] = []
step_tokens blank (s ∷ ss) =
    if s.token == blank then step_tokens blank ss else (s.token ∷ step_tokens blank ss)

abbrev pub step_frames : ℕ → List TdtStep → List ℕ
step_frames blank [] = []
step_frames blank (s ∷ ss) =
    if s.token == blank then step_frames blank ss else (s.frame ∷ step_frames blank ss)

-- The frame after a step: the predicted duration ahead, or, where that is 0, the same or the next one.
abbrev pub Leads : TdtStep → ℕ → Type 0
Leads s next =
    (0 < s.duration → next ≡ s.frame + s.duration)
    × (s.duration ≡ 0 → (s.frame ≤ next) × (next ≤ s.frame + 1))

-- Steps from one frame to another, each at a frame of the recording.
abbrev pub Linked : ℕ → ℕ → List TdtStep → ℕ → Type 0
Linked total from [] t = from ≡ t
Linked total from (s ∷ ss) t =
    (s.frame ≡ from) × (s.frame < total) × (next : ℕ) × Leads s next × Linked total next ss t

pub Linked-append :
    (total from t t' : ℕ) (ss : List TdtStep) (s : TdtStep)
    → Linked total from ss t
    → s.frame ≡ t
    → t < total
    → Leads s t'
    → Linked total from (ss ++ (s ∷ [])) t'
Linked-append total from t t' [] s linked at_t inside leads =
    (at_t ∙ sym linked, omega arith, t', leads, refl)
Linked-append total from t t' (x ∷ ss) s (at_x, x_inside, next, x_leads, linked) at_t inside leads =
    (at_x, x_inside, next, x_leads, Linked-append total next t t' ss s linked at_t inside leads)

pub step_tokens-append :
    (blank : ℕ) (ss : List TdtStep) (s : TdtStep)
    → step_tokens blank (ss ++ (s ∷ [])) ≡ (
        if s.token == blank then step_tokens blank ss else (step_tokens blank ss ++ (s.token ∷ [])))
step_tokens-append blank [] s = refl
step_tokens-append blank (x ∷ ss) s = ground (arith, step_tokens-append blank ss s)

pub step_frames-append :
    (blank : ℕ) (ss : List TdtStep) (s : TdtStep)
    → step_frames blank (ss ++ (s ∷ [])) ≡ (
        if s.token == blank then step_frames blank ss else (step_frames blank ss ++ (s.frame ∷ [])))
step_frames-append blank [] s = refl
step_frames-append blank (x ∷ ss) s = ground (arith, step_frames-append blank ss s)
