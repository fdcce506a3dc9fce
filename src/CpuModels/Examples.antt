-- ===== src/CpuModels/Examples.antt =====
-- The section in the words of the module, with one model that borrows the card.
use ai_lab.Common.{◌≡◌, refl, true, false, none, some, [], ◌∷◌}
use ai_lab.Clients.Text.{codes}
use ai_lab.Config.Rules.{word, flag, int}
use ai_lab.CpuModels.{
  Error, Read, accepted, refused, RawModel, RawSection, card_object, no_card, model_object,
  models_object, section_object, CpuModelsConfig, from_mapping, card_shares_port, shared_port,
}
use ai_lab.CpuModels.Valid.{IsValid, from_mapping-IsValid}

program : Unit {0}
unfolding from_mapping ai_lab.CpuModels.models_of ai_lab.CpuModels.model_of ai_lab.Common.Dict.get
    ai_lab.Clients.Text.starts_with ai_lab.CpuModels.whole ai_lab.CpuModels.card_of
program = tt

abbrev bge : RawModel
bge =
    model_object
      ((codes "path", word (codes "/m/bge.gguf"))
        ∷ (codes "port", int false 8390)
        ∷ (codes "parallel", int false 32)
        ∷ (codes "kv_unified", flag true)
        ∷ [])
      (card_object ((codes "port", int false 8391) ∷ (codes "needs_mb", int false 1300) ∷ []))

abbrev section : RawSection
section =
    section_object (some (word (codes "/opt/llama-server")))
      (models_object ((codes "bge-m3", bge) ∷ []))

abbrev config : CpuModelsConfig
config = record {
  binary = word (codes "/opt/llama-server");
  models =
      (
        codes "bge-m3",
        record {
          name = codes "bge-m3";
          path = codes "/m/bge.gguf";
          port = 8390;
          pooling = codes "cls";
          parallel = 32;
          threads = 12;
          context = 8192;
          idle_stop = record { numerator = 1800; denominator = 1 };
          kv_unified = true;
          card = some (record { port = 8391; needs_mb = 1300; margin_mb = 500 });
        },
      )
      ∷ [];
}

reads : from_mapping section ≡ accepted config
unfolding program
reads = refl

two_on_one_port :
    from_mapping (
      section_object
        (some (word (codes "/opt/llama-server")))
        (models_object ((codes "a", bge) ∷ (codes "b", bge) ∷ [])))
    ≡ refused shared_port
unfolding program
two_on_one_port = refl

from_mapping-IsValid_example : IsValid config
from_mapping-IsValid_example = from_mapping-IsValid section reads
