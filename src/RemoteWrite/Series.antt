-- ===== src/RemoteWrite/Series.antt =====
-- `encode_registry` of src/vllm_observer/remote_write.py, up to the protobuf and Snappy encodings.
pub mod Labels
use Prim.Native.Nat.{Ordering}
use Prim.Native.String.{compare}
use vllm_observer.Base.{ℕ, String, Bool, true, false, List, [], ◌∷◌, map, if◌then◌else◌}
use vllm_observer.Base.Dict.{Dict, insert, merge}

-- One sample of the registry.
pub record Sample (F : Type 0) : Type 0 where
  pub name : String
  pub labels : Dict String
  pub value : F

-- A series of a write request, which always has one sample.
pub record TimeSeries (F : Type 0) : Type 0 where
  pub labels : Dict String
  pub value : F
  pub timestamp : ℕ

-- `a <= b` on texts
abbrev pub text_le : String → String → Bool
text_le a b = elim (compare a b) [ Ordering.lt ↦ true | Ordering.eq ↦ true | Ordering.gt ↦ false ]

unfoldable pub insert_label : String → String → Dict String → Dict String
insert_label name value [] = (name, value) ∷ []
insert_label name value ((n, v) ∷ labels) =
    if text_le name n
    then (name, value) ∷ (n, v) ∷ labels
    else (n, v) ∷ insert_label name value labels

-- `sorted(labels.items())`, whose names are all different.
unfoldable pub sort_labels : Dict String → Dict String
unfolding insert_label
sort_labels [] = []
sort_labels ((name, value) ∷ labels) = insert_label name value (sort_labels labels)

module _ {F : Type 0} where
  -- `{**sample.labels, **identity, "__name__": sample.name}`
  unfoldable pub labels_of : Dict String → Sample F → Dict String
  labels_of identity sample = insert "__name__" sample.name (merge sample.labels identity)

  unfoldable pub encode_sample : Dict String → ℕ → Sample F → TimeSeries F
  unfolding labels_of sort_labels
  encode_sample identity timestamp sample = record {
    labels = sort_labels (labels_of identity sample);
    value = sample.value;
    timestamp = timestamp;
  }

  -- `encode_registry`, on the samples of all metrics of `registry.collect()`.
  unfoldable pub encode_registry : List (Sample F) → Dict String → ℕ → List (TimeSeries F)
  unfolding encode_sample
  encode_registry samples identity timestamp = map (encode_sample identity timestamp) samples
