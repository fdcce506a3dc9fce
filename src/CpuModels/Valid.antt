-- ===== src/CpuModels/Valid.antt =====
-- What an accepted section of embeddings models keeps to.
use ai_lab.Common.{
  ℕ, ◌≤◌, ◌≡◌, ◌≢◌, refl, subst, Bool, true, false, not, ◌||◌, Option, none, some, [], ◌∷◌, arith,
  if_cases, eqb, eqb_iff, nat_key, All,
}
use ai_lab.Common.Dict.{Dict, get}
use ai_lab.Clients.Text.{Text, codes, text_key}
use ai_lab.Config.Rules.{Value, word, flag, int, float, is_absolute, is_word_of, is_whole}
use ai_lab.Config.Validation.{has_repeats}
use ai_lab.CpuModels.{
  Error, Read, accepted, refused, ◌>>=◌, need, RawCard, no_card, card_other, card_object, RawModel,
  model_other, model_object, RawModels, no_models, models_other, models_object, RawSection,
  no_section, section_other, section_object, poolings, min_port, max_port, CardUse, CpuModel,
  CpuModelsConfig, whole, card_of, card_shares_port, relative_binary, shared_port, seconds, flag_of,
  get_or, path_of, pooling_of, model_of, models_of, all_models, all_ports, is_empty, from_mapping,
  binary_or,
}

-- What holds of the value, if one is read.
abbrev pub Holds {κ} : {A : Type 0} → (A → Type κ) → Read A → Type κ
Holds P (accepted value) = P value
Holds P (refused error) = Unit

Holds-bind :
    {A B : Type 0} (P : A → Type 0) (Q : B → Type 0) (m : Read A) (next : A → Read B)
    → Holds P m
    → ((value : A) → P value → Holds Q (next value))
    → Holds Q (m >>= next)
Holds-bind P Q (accepted value) next holds after = after value holds
Holds-bind P Q (refused error) next holds after = tt

Holds-need : (b : Bool) (error : Error) → Holds (λ u. b ≡ true) (need b error)
Holds-need true error = refl
Holds-need false error = tt

Holds-any : {A : Type 0} (m : Read A) → Holds (λ _. Unit {0}) m
Holds-any (accepted a) = tt
Holds-any (refused e) = tt

other_port : (a b : ℕ) → not (eqb a b) ≡ true → a ≢ b
other_port a b own same = ground (arith, eqb_iff a b)

whole-bounds :
    (name key : Text) (value : Option Value) (low high : ℕ)
    → Holds (λ n. (low ≤ n) × (n ≤ high)) (whole name key value low high)
unfolding whole
whole-bounds name key (some (int is_negative n)) low high =
    if_cases (Holds (λ n. (low ≤ n) × (n ≤ high))) (is_whole low high (some (int is_negative n)))
      (λ is. ground (arith, is)) (λ _. tt)
whole-bounds name key _ low high = tt

path_of-absolute :
    (name : Text) (value : Option Value)
    → Holds (λ path. is_absolute (some (word path)) ≡ true) (path_of name value)
path_of-absolute name (some (word s)) =
    if_cases (Holds (λ path. is_absolute (some (word path)) ≡ true)) (is_absolute (some (word s)))
      (λ is. is) (λ _. tt)
path_of-absolute name _ = tt

pooling_of-known :
    (name : Text) (value : Value)
    → Holds (λ pooling. is_word_of poolings (some (word pooling)) ≡ true) (pooling_of name value)
pooling_of-known name (word s) =
    if_cases (Holds (λ pooling. is_word_of poolings (some (word pooling)) ≡ true))
      (is_word_of poolings (some (word s))) (λ is. is) (λ _. tt)
pooling_of-known name _ = tt

-- A card has a port of its own.
abbrev pub IsCardFit : ℕ → Option CardUse → Type 0
IsCardFit port none = Unit {0}
IsCardFit port (some c) =
    (min_port ≤ c.port)
    × (c.port ≤ max_port)
    × (c.port ≢ port)
    × (1 ≤ c.needs_mb)
    × (c.needs_mb ≤ 65536)
    × (c.margin_mb ≤ 65536)

pub record IsFit (m : CpuModel) : Type 0 where
  pub absolute : is_absolute (some (word m.path)) ≡ true
  pub known : is_word_of poolings (some (word m.pooling)) ≡ true
  pub in_range : (min_port ≤ m.port) × (m.port ≤ max_port)
  pub some_places : (1 ≤ m.parallel) × (m.parallel ≤ 64)
  pub some_threads : (1 ≤ m.threads) × (m.threads ≤ 256)
  pub some_context : (512 ≤ m.context) × (m.context ≤ 131072)
  pub fit_card : IsCardFit m.port m.card

card_of-IsCardFit :
    (name : Text) (raw : RawCard) (port : ℕ) → Holds (IsCardFit port) (card_of name raw port)
unfolding card_of
card_of-IsCardFit name no_card port = tt
card_of-IsCardFit name card_other port = tt
card_of-IsCardFit name (card_object raw) port =
    Holds-bind _ _ (whole name (codes "card.port") (get (codes "port") raw) min_port max_port) _
      (whole-bounds _ _ _ _ _)
      λ card_port. λ in_range.
        Holds-bind _ _ (need (not (eqb card_port port)) (card_shares_port name)) _ (Holds-need _ _)
          λ u. λ own.
            Holds-bind _ _ (whole name (codes "card.needs_mb") (get (codes "needs_mb") raw) 1 65536)
              _ (whole-bounds _ _ _ _ _)
              λ needs. λ some_mb.
                Holds-bind _ _
                  (whole name (codes "card.margin_mb")
                    (some (get_or (codes "margin_mb") (int false 500) raw)) 0 65536)
                  _ (whole-bounds _ _ _ _ _)
                  λ margin. λ few. (
                    in_range.0,
                    in_range.1,
                    other_port card_port port own,
                    some_mb.0,
                    some_mb.1,
                    few.1,
                  )

model_of-IsFit : (name : Text) (raw : RawModel) → Holds IsFit (model_of name raw)
unfolding model_of
model_of-IsFit name model_other = tt
model_of-IsFit name (model_object raw card) =
    Holds-bind _ _ (path_of name (get (codes "path") raw)) _ (path_of-absolute _ _) λ path.
      λ absolute.
        Holds-bind _ _ (pooling_of name (get_or (codes "pooling") (word (codes "cls")) raw)) _
          (pooling_of-known name (get_or (codes "pooling") (word (codes "cls")) raw))
          λ pooling. λ known.
            Holds-bind _ _ (whole name (codes "port") (get (codes "port") raw) min_port max_port) _
              (whole-bounds _ _ _ _ _)
              λ port. λ in_range.
                Holds-bind _ _
                  (whole name (codes "parallel")
                    (some (get_or (codes "parallel") (int false 4) raw)) 1 64)
                  _ (whole-bounds _ _ _ _ _)
                  λ parallel. λ places.
                    Holds-bind _ _
                      (whole name (codes "threads")
                        (some (get_or (codes "threads") (int false 12) raw)) 1 256)
                      _ (whole-bounds _ _ _ _ _)
                      λ threads. λ some_threads.
                        Holds-bind _ _
                          (whole name (codes "context")
                            (some (get_or (codes "context") (int false 8192) raw)) 512 131072)
                          _ (whole-bounds _ _ _ _ _)
                          λ context. λ some_context.
                            Holds-bind _ _
                              (seconds name (get_or (codes "idle_stop_s") (float false 1800 1) raw))
                              _ (Holds-any _)
                              λ idle_stop. λ _.
                                Holds-bind _ _
                                  (flag_of name (codes "kv_unified")
                                    (get_or (codes "kv_unified") (flag false) raw))
                                  _ (Holds-any _)
                                  λ kv_unified. λ _.
                                    Holds-bind _ _ (card_of name card port) _
                                      (card_of-IsCardFit name card port)
                                      λ card_use. λ fit_card. record {
                                        absolute = absolute;
                                        known = known;
                                        in_range = in_range;
                                        some_places = places;
                                        some_threads = some_threads;
                                        some_context = some_context;
                                        fit_card = fit_card;
                                      }

models_of-AllFit :
    (entries : Dict Text RawModel) → Holds (All (λ entry. IsFit entry.1)) (models_of entries)
unfolding models_of
models_of-AllFit [] = tt
models_of-AllFit ((name, raw) ∷ entries) =
    Holds-bind _ _ (model_of name raw) _ (model_of-IsFit name raw) λ model. λ fit.
      Holds-bind _ _ (models_of entries) _ (models_of-AllFit entries)
        λ models. λ all_fit. (fit, all_fit)

all_models-AllFit : (raw : RawModels) → Holds (All (λ entry. IsFit entry.1)) (all_models raw)
all_models-AllFit no_models = tt
all_models-AllFit models_other = tt
all_models-AllFit (models_object entries) = models_of-AllFit entries

abbrev pub IsValid : CpuModelsConfig → Type 0
IsValid c =
    All (λ entry. IsFit entry.1) c.models
    × ((is_empty c.models || is_absolute (some c.binary)) ≡ true)
    × (has_repeats (all_ports c.models) ≡ false)

Holds-from_mapping : (raw : RawSection) → Holds IsValid (from_mapping raw)
unfolding from_mapping
Holds-from_mapping no_section = (tt, refl, refl)
Holds-from_mapping section_other = tt
Holds-from_mapping (section_object raw_binary raw_models) =
    Holds-bind _ _ (all_models raw_models) _ (all_models-AllFit raw_models) λ models. λ all_fit.
      Holds-bind _ _
        (need (is_empty models || is_absolute (some (binary_or raw_binary))) relative_binary) _
        (Holds-need _ _)
        λ u. λ absolute.
          Holds-bind _ _ (need (not (has_repeats (all_ports models))) shared_port) _
            (Holds-need _ _) λ v. λ apart. (all_fit, absolute, ground (arith, apart))

-- A section that is accepted keeps to this: each model has an absolute path, a known pooling and a
-- port, places, threads and a context within the limits, its card use has needs, a margin and a
-- port within them, which is not the model's own, no port is there twice among all of these, and
-- the binary is absolute if there is a model.
pub from_mapping-IsValid :
    (raw : RawSection) {c : CpuModelsConfig} → from_mapping raw ≡ accepted c → IsValid c
from_mapping-IsValid raw is = subst (Holds IsValid) is (Holds-from_mapping raw)
