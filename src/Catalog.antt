-- ===== src/Catalog.antt =====
-- api/app/catalog.py: the models that are served, and what they cost. Prices are whole cents, per
-- million tokens or per image, so that a cost in 0.00000001 USD is exact.
use gridix_infra.Prelude.{[], ◌∷◌, ℕ, Option, String, List, find, str_eq, ◌+◌, ◌*◌}

pub data Modality : Type 0 where
  chat image : Modality

pub record ModelSpec : Type 0 where
  pub id : String
  pub modality : Modality
  pub input_cents_per_mtok : ℕ
  pub output_cents_per_mtok : ℕ
  pub cents_per_image : ℕ
  pub max_output_tokens : ℕ
  pub context_window : ℕ

abbrev pub chat_model : String → ℕ → ℕ → ℕ → ModelSpec
chat_model id input output window = record {
  id = id;
  modality = chat;
  input_cents_per_mtok = input;
  output_cents_per_mtok = output;
  cents_per_image = 0;
  max_output_tokens = 4096;
  context_window = window;
}

abbrev pub image_model : String → ℕ → ModelSpec
image_model id price = record {
  id = id;
  modality = image;
  input_cents_per_mtok = 0;
  output_cents_per_mtok = 0;
  cents_per_image = price;
  max_output_tokens = 4096;
  context_window = 8192;
}

-- `CATALOG`
abbrev pub catalog : List ModelSpec
catalog =
    chat_model "llama-3.1-8b" 5 8 128_000
    ∷ chat_model "llama-3.1-70b" 40 80 128_000
    ∷ chat_model "qwen-2.5-coder-32b" 18 30 32_768
    ∷ image_model "sdxl-turbo" 1
    ∷ image_model "flux-schnell" 3
    ∷ []

abbrev pub get_model : String → Option ModelSpec
get_model model_id = find (λ m. str_eq m.id model_id) catalog

unfoldable pub chat_cost : ModelSpec → ℕ → ℕ → ℕ
chat_cost spec input_tokens output_tokens =
    spec.input_cents_per_mtok * input_tokens + spec.output_cents_per_mtok * output_tokens

abbrev pub image_cost : ModelSpec → ℕ → ℕ
image_cost spec images = spec.cents_per_image * 1_000_000 * images

unfoldable pub chat_worst_case : ModelSpec → ℕ → ℕ → ℕ
chat_worst_case spec input_tokens max_output_tokens = chat_cost spec input_tokens max_output_tokens
