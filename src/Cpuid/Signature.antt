-- ===== src/Cpuid/Signature.antt =====
-- The signature of leaf 1 in Kernel/Kernel/i386/cpuid.c against what a processor encodes there.
use beta_os.Prelude.{
  ℕ, ◌+◌, ◌-◌, ◌*◌, ◌/◌, ◌%◌, ◌^◌, ◌<◌, ◌≡◌, ◌||◌, leb, ◌==◌, if◌then◌else◌, arith,
}
use beta_os.Cpuid.Info.{Signature}
use beta_os.Cpuid.Generic.{decode_signature, fold_family, fold_model}

-- How a processor of a family, model, stepping and type encodes them. The family field holds 15
-- at most and the extended family the rest; the model is cut into its two digits.
unfoldable pub encode_signature : ℕ → ℕ → ℕ → ℕ → ℕ
encode_signature type family model stepping =
    stepping
    + model % 2 ^ 4 * 2 ^ 4
    + (if leb 15 family then 15 else family) * 2 ^ 8
    + type * 2 ^ 12
    + model / 2 ^ 4 * 2 ^ 16
    + (family - 15) * 2 ^ 20

unfoldable pub folded : ℕ → Signature
unfolding decode_signature fold_family fold_model
folded w = fold_model (fold_family (decode_signature w))

module _ (type family model stepping : ℕ) (t : type < 4) (f : family < 256) (m : model < 256)
    (s : stepping < 16) where
  fields :
      let d = decode_signature (encode_signature type family model stepping) in
      (d.type ≡ type)
      × (d.stepping ≡ stepping)
      × (d.family ≡ (if leb 15 family then 15 else family))
      × (d.extfamily ≡ family - 15)
      × (d.model ≡ model % 2 ^ 4)
      × (d.extmodel ≡ model / 2 ^ 4)
  unfolding decode_signature encode_signature
  fields = ground arith

  -- From the signature of a processor whose family and model are below 256, the kernel reads its
  -- type, stepping and family, and its model for the families 6 and 15. For any other family it
  -- reads the low digit of the model alone.
  pub folded-encode_signature :
      let d = folded (encode_signature type family model stepping) in
      (d.type ≡ type)
      × (d.stepping ≡ stepping)
      × (d.family ≡ family)
      × (d.model ≡ (if family == 15 || family == 6 then model else model % 2 ^ 4))
  unfolding folded fold_family fold_model
  folded-encode_signature = ground (arith, fields)
