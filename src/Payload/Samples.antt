-- ===== src/Payload/Samples.antt =====
-- An episode of one step, with a bool tensor among its model's extras.
use alpagym.Base.{ℕ, ◌≡◌, refl, Bool, true, false, [], ◌∷◌, arith}
use alpagym.Base.Outcome.{ok, ◌>>=◌, ◌>>◌, refuse}
use alpagym.Payload.{
  Value, Fields, null, bool, num, str, tensor, list, tuple, dict, dataclass, no_items, item,
  no_fields, field, Libraries, dataclass_hint, pack, packed, leaf_of, wire, any_reserved,
  is_reserved, named,
}
use alpagym.Payload.Unpack.{unpack}
use alpagym.Payload.Fits
use alpagym.Payload.Fits.{
  fits_class, fits_dataclass, fits_field, fits_item, fits_mapping, fits_no_class, fits_no_fields,
  fits_no_items, fits_null, fits_plain, fits_some, fits_tensor, fits_tuple,
}
use alpagym.Payload.Size
use alpagym.Payload.Shipped
use alpagym.Payload.Shipped.{pack-Shipment}
use alpagym.Payload.RoundTrip.{unpack-pack}
use alpagym.Payload.Schema

-- A tensor by its number of elements and whether its dtype is bool.
abbrev pub Shape : Type 0
Shape = ℕ × Bool

abbrev pub libraries : Libraries Shape ℕ
libraries = record {
  numel = λ t. t.0;
  is_bool = λ t. t.1;
  to_uint8 = λ t. (t.0, false);
  to_bool = λ t. (t.0, true);
  shape = λ t. item (num t.0) no_items;
  dtype = λ t. "torch.uint8";
  tensor_truth = λ t. true;
  tolist = λ a. num a;
  item_of = λ a. num a;
  truth = λ a. true;
  characters = λ s. no_items;
}

pub restores :
    (t : Shape) → libraries.is_bool t ≡ true → libraries.to_bool (libraries.to_uint8 t) ≡ t
restores (n, true) h = refl
restores (n, false) h = absurd (cc h)

abbrev step_fields : Fields Shape ℕ
step_fields = field "chosen_xyz" (tensor (6, false)) (
    field "chosen_quat" (tensor (8, false)) (
      field "chosen_dt_us" (tensor (2, false)) (
        field "chosen_logprob" (tensor (1, false)) (
          field "replay_data" (null) (
            field "all_pred_xyz" (null) (
              field "all_pred_quat" (null) (
                field "model_extra" (dict (field "mask" (tensor (4, true)) no_fields))
                  no_fields)))))))

abbrev step : Value Shape ℕ
step = dataclass Schema.policy_output_path step_fields

abbrev pub episode_fields : Fields Shape ℕ
episode_fields = field "scene_id" (str "clip-7") (
    field "session_uuid" (str "s-1") (
      field "num_steps" (num 1) (
        field "policy_outputs" (tuple (item step no_items)) (
          field "executed_ego_trajectory"
            (dataclass Schema.trajectory_path (field "poses" (tuple no_items) no_fields))
            (field "route_waypoints" (tuple no_items) (
              field "metrics" (null)
                (field "reward" (null) (field "is_valid" (bool true) no_fields))))))))

step-Fits :
    Fits.Fits libraries Schema.episode_classes (dataclass_hint Schema.policy_output_path) step
unfolding Fits.is_optional Fits.is_null Fits.is_leaf Fits.Distinct any_reserved is_reserved named
step-Fits =
    fits_dataclass _ _ _ refl refl
      (refl, (refl, (refl, (refl, (refl, (refl, (refl, (refl, tt))))))))
      (fits_class _ _ _ _ _ (fits_tensor _ _ (λ z. absurd (omega arith))) (
        fits_class _ _ _ _ _ (fits_tensor _ _ (λ z. absurd (omega arith))) (
          fits_class _ _ _ _ _ (fits_tensor _ _ (λ z. absurd (omega arith))) (
            fits_class _ _ _ _ _
              (fits_some _ _ refl refl (fits_tensor _ _ (λ z. absurd (omega arith))))
              (fits_class _ _ _ _ _ (fits_null _) (
                fits_class _ _ _ _ _ (fits_null _) (
                  fits_class _ _ _ _ _ (fits_null _) (
                    fits_class _ _ _ _ _
                      (fits_some _ _ refl refl (
                        fits_mapping _ _ refl (
                          fits_field _ _ _ _ (fits_tensor _ _ (λ z. absurd (omega arith)))
                            (fits_no_fields _))))
                      fits_no_class))))))))

pub episode-Fits :
    Fits.Fits libraries Schema.episode_classes
      (dataclass_hint Schema.episode_output_path)
      (dataclass Schema.episode_output_path episode_fields)
unfolding Fits.is_optional Fits.is_null Fits.is_leaf Fits.Distinct any_reserved is_reserved named
episode-Fits =
    fits_dataclass _ _ _ refl refl
      (refl, (refl, (refl, (refl, (refl, (refl, (refl, (refl, (refl, tt)))))))))
      (fits_class _ _ _ _ _ (fits_plain _ refl) (
        fits_class _ _ _ _ _ (fits_plain _ refl) (
          fits_class _ _ _ _ _ (fits_plain _ refl) (
            fits_class _ _ _ _ _ (fits_tuple _ _ (fits_item _ _ _ step-Fits (fits_no_items _))) (
              fits_class _ _ _ _ _
                (fits_dataclass _ _ _ refl refl (refl, tt)
                  (fits_class _ _ _ _ _ (fits_tuple _ _ (fits_no_items _)) fits_no_class))
                (fits_class _ _ _ _ _ (fits_tuple _ _ (fits_no_items _)) (
                  fits_class _ _ _ _ _ (fits_null _) (
                    fits_class _ _ _ _ _ (fits_null _)
                      (fits_class _ _ _ _ _ (fits_plain _ refl) fits_no_class)))))))))

unpack-pack_example :
    (pack libraries (dataclass Schema.episode_output_path episode_fields)
      >>= unpack libraries Schema.episode_classes 99)
    ≡ ok (dataclass Schema.episode_output_path episode_fields)
unfolding Size.size
unpack-pack_example =
    unpack-pack libraries Schema.episode_classes restores episode_fields 99 episode-Fits
      (omega arith)

abbrev batch : Value Shape ℕ
batch = list (item (tensor (4, true)) (item (tensor (2, false)) no_items))

pack-Shipment_example : Shipped.Shipment libraries ((0, (4, false)) ∷ (1, (2, false)) ∷ [])
unfolding pack packed leaf_of wire refuse ◌>>◌ ◌>>=◌
pack-Shipment_example =
    pack-Shipment libraries (λ t. refl) (λ t. refl) batch _ ((0, (4, false)) ∷ (1, (2, false)) ∷ [])
      refl
