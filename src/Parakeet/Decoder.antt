-- ===== src/Parakeet/Decoder.antt =====
-- crates/models/src/parakeet/decoder.rs, `greedy_decode`. The two networks are parameters:
-- `prednet_step` answers the output for a token and the next state, `joint_step` the logits of a frame
-- for such an output. A logit is of a type `F` that stands for `f32`, with its comparison `gt` and
-- negative infinity. `none` says that the fuel of the loop ran out; it is one more than `max_steps`.
pub mod Answers
pub mod Limits
pub mod Steps
pub mod Outputs
use ocelotl.Common.{
  ℕ, zero, suc, ◌+◌, Bool, true, false, not, ◌&&◌, ◌||◌, Option, none, some, List, [], ◌∷◌, ◌++◌,
  String, leb, ltb, ◌==◌, if◌then◌else◌, length, take, drop, get_elem?,
}
use ocelotl.Core.Errors.{Result, ok, err, panic, ◌>>=◌}
use ocelotl.Core.Panics.{or_overflow}
use ocelotl.Parakeet.Chunk.{rt}

abbrev pub vocab_size : ℕ
vocab_size = 8193

abbrev pub num_durations : ℕ
num_durations = 5

abbrev pub joint_width : ℕ
joint_width = 8198

pub record TdtStep : Type 0 where
  pub frame : ℕ
  pub prev_token : ℕ
  pub token : ℕ
  pub duration_index : ℕ
  pub duration : ℕ

pub record TdtDecode : Type 0 where
  pub tokens : List ℕ
  pub frames : List ℕ
  pub steps : List TdtStep

pub record TdtConfig : Type 0 where
  pub durations : List ℕ
  pub blank : ℕ
  pub max_tokens_per_step : ℕ
  pub max_steps : ℕ

abbrev pub default_config : TdtConfig
default_config = record {
  durations = 0 ∷ 1 ∷ 2 ∷ 3 ∷ 4 ∷ [];
  blank = 8192;
  max_tokens_per_step = 10;
  max_steps = 100_000;
}

-- The variables of the loop.
pub record Machine (S : Type 0) : Type 0 where
  pub state : S
  pub out : TdtDecode
  pub t : ℕ
  pub emitted : ℕ

-- `out.tokens.last().copied().unwrap_or(..)`.
abbrev pub last_or : ℕ → List ℕ → ℕ
last_or start [] = start
last_or start (x ∷ xs) = last_or x xs

module _ {F : Type 0} (gt : F → F → Bool) (neg_infinity : F) where
  unfoldable pub argmax_scan : ℕ → ℕ → F → List F → ℕ
  argmax_scan i best best_v [] = best
  argmax_scan i best best_v (v ∷ values) =
      if gt v best_v then argmax_scan (i + 1) i v values else argmax_scan (i + 1) best best_v values

  unfoldable pub argmax : List F → ℕ
  argmax values = argmax_scan 0 0 neg_infinity values

  module _ {S P : Type 0} (prednet_step : ℕ → S → Result (P × S))
      (joint_step : ℕ → P → Result (List F)) (config : TdtConfig) where
    -- The step that is recorded, and the state that the network proposes.
    unfoldable pub evaluate : Machine S → Result (TdtStep × S)
    evaluate m = do
      predicted ← prednet_step (last_or config.blank m.out.tokens) m.state
      logits ← joint_step m.t (predicted.0)
      let duration_index = argmax (drop vocab_size logits)
      elim (get_elem? config.durations duration_index) [
        | none ↦ panic
        | some duration ↦ ok (
          record {
            frame = m.t;
            prev_token = last_or config.blank m.out.tokens;
            token = argmax (take vocab_size logits);
            duration_index = duration_index;
            duration = duration;
          },
          predicted.1,
        )
      ]

    -- The recorded step, and the emission of a token that is not blank.
    unfoldable pub emit : Machine S → TdtStep → S → Machine S
    emit m step next_state =
        if step.token == config.blank
        then record m {
          out = record {
            tokens = m.out.tokens;
            frames = m.out.frames;
            steps = m.out.steps ++ (step ∷ []);
          };
        }
        else record {
          state = next_state;
          out = record {
            tokens = m.out.tokens ++ (step.token ∷ []);
            frames = m.out.frames ++ (m.t ∷ []);
            steps = m.out.steps ++ (step ∷ []);
          };
          t = m.t;
          emitted = m.emitted + 1;
        }

    unfoldable pub advance : Machine S → TdtStep → Result (Machine S)
    advance m step =
        if ltb 0 step.duration
        then (or_overflow (m.t + step.duration) >>= λ t. ok (record m { t = t; emitted = 0 }))
        else (if step.token == config.blank || m.emitted == config.max_tokens_per_step
            then ok (record m { t = m.t + 1; emitted = 0 })
            else ok m)

    -- The body of the loop behind its guard.
    unfoldable pub decode_step : Machine S → Result (Machine S)
    decode_step m = evaluate m >>= λ (step, next_state). advance (emit m step next_state) step

    unfoldable pub decode_loop : ℕ → ℕ → Machine S → Option (Result (Machine S))
    decode_loop zero frames m = none
    decode_loop (suc fuel) frames m = elim (ltb m.t frames) [
      | false ↦ some (ok m)
      | true ↦ elim (leb config.max_steps (length m.out.steps)) [
        | true ↦ some (
            rt
              "TDT decode exceeded {} steps at frame {t} of {frames} — the duration head is predicting 0 without terminating")
        | false ↦ elim (decode_step m) [
          | err e ↦ some (err e)
          | panic ↦ some panic
          | ok next ↦ decode_loop fuel frames next
        ]
      ]
    ]

    abbrev pub initial : S → Machine S
    initial zeros = record {
      state = zeros;
      out = record { tokens = []; frames = []; steps = [] };
      t = 0;
      emitted = 0;
    }

    -- `project` is the outcome of the projection of the encoder's output, on which `joint_step` rests.
    unfoldable pub greedy_decode : Result (Unit {0}) → S → ℕ → Option (Result TdtDecode)
    greedy_decode project zeros frames =
        if config.max_tokens_per_step == 0
        then some (rt "max_tokens_per_step must be non-zero")
        else elim project [
          | err e ↦ some (err e)
          | panic ↦ some panic
          | ok _ ↦ elim (decode_loop (suc config.max_steps) frames (initial zeros)) [
            | none ↦ none
            | some result ↦ some (result >>= λ m. ok m.out)
          ]
        ]
