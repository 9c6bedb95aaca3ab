-- ===== src/Payload/Wire/Samples.antt =====
-- The episode of the other samples, over the wire.
use alpagym.Base.{ℕ, ◌≡◌, refl, true, List, [], ◌∷◌, ltb}
use alpagym.Base.Dict.{Dict, get}
use alpagym.Base.Outcome.{ok, raise}
use alpagym.Payload.{Value, Result, type_error}
use alpagym.Payload.Samples.{Shape}
use alpagym.Payload.Schema
use alpagym.Payload.Size
use alpagym.Payload.Specs.{Metadata, TensorSpec}
use alpagym.Payload.Wire.{send_registered_transfer, do_nccl_recv}
use alpagym.Payload.Wire.Delivered.{received-sent}

abbrev torch_names : Metadata Shape ℕ
torch_names = record { int_of = λ v. raise type_error; is_torch_dtype = λ s. true }

-- A buffer takes what is sent.
abbrev fill : TensorSpec → Shape → Shape
fill spec t = t

abbrev one_dim : Shape → TensorSpec
one_dim t = record { shape = t.0 ∷ []; dtype = "torch.uint8" }

abbrev numbered : Dict Shape
numbered = (2, (7, true)) ∷ (0, (4, true)) ∷ []

received-sent_example :
    (sent : List Shape) × ((send_registered_transfer ltb numbered ≡ ok sent)
      × ((got : Dict Shape) × ((do_nccl_recv fill ltb
                ((2, one_dim (7, true)) ∷ (0, one_dim (4, true)) ∷ [])
                sent
              ≡ ok got)
            × ((n : ℕ) → get n got ≡ get n numbered))))
received-sent_example = received-sent ltb fill one_dim (λ t. refl) numbered

-- A text is the value that it spells.
abbrev write_json : Value Shape ℕ → Result (Value Shape ℕ)
write_json v = ok v

abbrev read_json : Value Shape ℕ → Result (Value Shape ℕ)
read_json v = ok v
