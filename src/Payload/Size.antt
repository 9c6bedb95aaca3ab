-- ===== src/Payload/Size.antt =====
-- How much stack `_unpack` needs for a value, for the bound on the fuel.
use alpagym.Base.{ℕ, suc, ◌+◌}
use alpagym.Payload.{
  Value, Items, Fields, list, tuple, dict, dataclass, no_items, item, no_fields, field,
}

module _ {T A : Type 0} where
  unfoldable mutual
    pub size : Value T A → ℕ
    size (list xs) = suc (size_items xs)
    size (tuple xs) = suc (size_items xs)
    size (dict fs) = suc (size_fields fs)
    size (dataclass c fs) = suc (size_fields fs)
    size v = 1

    pub size_items : Items T A → ℕ
    size_items no_items = 0
    size_items (item v xs) = size v + size_items xs

    pub size_fields : Fields T A → ℕ
    size_fields no_fields = 0
    size_fields (field k v fs) = size v + size_fields fs
