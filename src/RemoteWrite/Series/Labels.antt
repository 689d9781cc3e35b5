-- ===== src/RemoteWrite/Series/Labels.antt =====
-- The labels of the series that src/vllm_observer/remote_write.py sends.
use vllm_observer.Base.{
  ℕ, ◌≡◌, refl, ◌∙◌, String, false, none, some, [], ◌∷◌, if◌then◌else◌, str_eq, eq_iff, arith,
  Bool-cases, inl, inr,
}
use vllm_observer.Base.Dict.{
  Dict, lookup, contains, insert, merge, UniqueKeys, lookup-insert, insert-UniqueKeys, lookup-merge,
}
use vllm_observer.RemoteWrite.Series.{
  Sample, text_le, insert_label, sort_labels, labels_of, encode_sample,
}

lookup-insert_label :
    (k name value : String) (labels : Dict String)
    → contains name labels ≡ false
    → lookup k (insert_label name value labels)
      ≡ (if str_eq name k then some value else lookup k labels)
unfolding insert_label
lookup-insert_label k name value [] h = refl
lookup-insert_label k name value ((n, v) ∷ labels) h = elim (Bool-cases (text_le name n)) [
  | inl first ↦ rw first refl
  | inr later ↦ rw later (
      ground
        (arith, eq_iff n k, eq_iff name k, eq_iff n name, lookup-insert_label k name value labels))
]

lookup-sort_labels :
    (k : String) (labels : Dict String)
    → UniqueKeys labels
    → lookup k (sort_labels labels) ≡ lookup k labels
unfolding sort_labels
lookup-sort_labels k [] h = refl
lookup-sort_labels k ((name, value) ∷ labels) h = ground (
  arith,
  lookup-sort_labels k labels h.1,
  lookup-sort_labels name labels h.1,
  lookup-insert_label k name value (sort_labels labels),
  h.0,
)

merge-UniqueKeys : (d e : Dict String) → UniqueKeys d → UniqueKeys (merge d e)
merge-UniqueKeys d [] h = h
merge-UniqueKeys d ((k, v) ∷ e) h = merge-UniqueKeys (insert k v d) e (insert-UniqueKeys k v d h)

-- If no label stands twice in the identity or in a sample, its series carries the name of its
-- sample, the identity of the instance, and the sample's own labels where these two do not name
-- them.
pub lookup-encode_sample :
    {F : Type 0} (k : String) (identity : Dict String) (timestamp : ℕ) (sample : Sample F)
    → UniqueKeys identity
    → UniqueKeys sample.labels
    → lookup k (encode_sample identity timestamp sample).labels ≡ (
        if str_eq "__name__" k
        then some sample.name
        else elim (lookup k identity) [ none ↦ lookup k sample.labels | some v ↦ some v ])
unfolding encode_sample labels_of
lookup-encode_sample k identity timestamp sample h u =
    let merged = merge sample.labels identity in
    lookup-sort_labels k (insert "__name__" sample.name merged)
      (insert-UniqueKeys "__name__" sample.name merged (merge-UniqueKeys sample.labels identity u))
    ∙ lookup-insert k "__name__" sample.name merged
    ∙ ground (arith, lookup-merge k sample.labels identity h)
