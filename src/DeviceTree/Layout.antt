-- ===== src/DeviceTree/Layout.antt =====
-- Where the parts of an encoded tree stand in memory, and what the loads of
-- Kernel/Platform/DeviceTree.c read there.
use beta_os.Prelude.{
  ℕ, ◌+◌, ◌*◌, ◌/◌, ◌^◌, ◌≤◌, ◌<◌, ◌≡◌, ◌≢◌, refl, sym, ap, ◌∙◌, [], ◌∷◌, ◌++◌, length, drop, All,
  append_assoc, length-append, length-drop, drop-drop, drop-length-append, arith,
}
use beta_os.DeviceTree.Memory.{
  Bytes, Addr, u32_at, until_nul, string_at, property_size, prop_length, next_prop,
}
use beta_os.DeviceTree.Tree.{Property, IsProperty, word, encode_property, At}

module _ {mem : Bytes} {p : Addr} where
  pub At-skip : (xs : Bytes) {ys : Bytes} → At mem p (xs ++ ys) → At mem (p + length xs) ys
  At-skip xs {ys} a = record {
    rest = a.rest;
    holds =
        sym (drop-drop p (length xs) mem)
        ∙ ap (drop (length xs)) (a.holds ∙ append_assoc xs ys a.rest)
        ∙ drop-length-append xs (ys ++ a.rest);
  }

  pub At-front : (xs ys : Bytes) → At mem p (xs ++ ys) → At mem p xs
  At-front xs ys a = record { rest = ys ++ a.rest; holds = a.holds ∙ append_assoc xs ys a.rest }

  pub At-within : (bs : Bytes) → 0 < length bs → At mem p bs → p + length bs ≤ length mem
  At-within bs pos a = omega (arith, ap length a.holds, length-drop p mem, length-append bs a.rest)

  pub u32_at-word : (n : ℕ) (ys : Bytes) → n < 2 ^ 32 → At mem p (word n ++ ys) → u32_at mem p ≡ n
  unfolding u32_at
  u32_at-word n ys fits a = rw (a.holds) (omega arith)

pub until_nul-append : (xs ys : Bytes) → All (λ c. c ≢ 0) xs → until_nul (xs ++ (0 ∷ ys)) ≡ xs
unfolding until_nul
until_nul-append [] ys h = refl
until_nul-append (x ∷ xs) ys h = ground (arith, until_nul-append xs ys h.1)

-- The name with its NUL and what follows it in the array, then the rest of the property.
abbrev name_field : Property → Bytes
name_field x = x.name ++ (0 ∷ x.name_slack)

abbrev after_name : Property → Bytes
after_name x = word (length x.value) ++ (x.value ++ x.value_slack)

encode_property-split : (x : Property) → encode_property x ≡ name_field x ++ after_name x
unfolding encode_property
encode_property-split x = sym (append_assoc x.name (0 ∷ x.name_slack) (after_name x))

length-name_field : {x : Property} → IsProperty x → length (name_field x) ≡ 32
length-name_field {x} ok = omega (arith, ok.name_fits, length-append x.name (0 ∷ x.name_slack))

pub length-encode_property :
    {x : Property}
    → IsProperty x
    → length (encode_property x) ≡ property_size + (length x.value + 3) / 4 * 4
length-encode_property {x} ok = rw encode_property-split (
    omega (
      arith,
      length-append (name_field x) (after_name x),
      length-name_field ok,
      length-append x.value x.value_slack,
      ok.padded,
    ))

-- The offsets of a property's parts.
module _ {mem : Bytes} {prop : Addr} {x : Property} (ok : IsProperty x)
    (a : At mem prop (encode_property x)) where
  open x use {name, name_slack, value, value_slack}

  pub string_at-name : string_at mem prop ≡ name
  unfolding string_at encode_property
  string_at-name = rw (a.holds, append_assoc) (until_nul-append name _ ok.no_nul)

  At-length : At mem (prop + 32) (after_name x)
  At-length =
      rw (length-name_field ok) at
        (At-skip (name_field x) {ys = after_name x} (rw encode_property-split at a))

  pub prop_length-value : prop_length mem prop ≡ length value
  unfolding prop_length
  prop_length-value =
      u32_at-word (length value) (value ++ value_slack) (omega (arith, ok.value_fits)) At-length

  pub At-value : At mem (prop + property_size) (value ++ value_slack)
  At-value =
      let v = At-skip (word (length value)) {ys = value ++ value_slack} At-length in
      let e : prop + 32 + 4 ≡ prop + property_size = omega arith in rw e at v

  pub next_prop-encode :
      length mem < 2 ^ 64 → next_prop mem prop ≡ prop + length (encode_property x)
  unfolding next_prop
  next_prop-encode small = omega (
    arith,
    prop_length-value,
    length-encode_property ok,
    At-within (encode_property x) (omega (arith, length-encode_property ok)) a,
    ok.value_fits,
  )
