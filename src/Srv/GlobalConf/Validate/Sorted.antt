-- ===== src/Srv/GlobalConf/Validate/Sorted.antt =====
-- `split` sorts the stored global options.
use samfscon.Prelude.{
  Bool, true, false, Option, none, some, [], ◌∷◌, ◌≡◌, refl, ◌∙◌, if◌then◌else◌, arith, ◌&&◌,
  Bool-cases, inl, inr,
}
use samfscon.Prelude.Text.{Text, eq_text, eq_text_iff}
use samfscon.Prelude.Dict
use samfscon.Prelude.Dict.{or_before, Dict, IsDict}
use samfscon.Srv.GlobalConf.Validate.{
  Buckets, Bucket, to_known, to_extra, to_not_applicable, to_idmap, bucket_of, file_in, split_from,
  split,
}

-- The dictionary for a kind of entry.
abbrev pub dict_of : Buckets → Bucket → Dict Text
dict_of b to_known = b.known
dict_of b to_extra = b.extra
dict_of b to_not_applicable = b.not_applicable
dict_of b to_idmap = b.idmap

abbrev pub same_bucket : Bucket → Bucket → Bool
same_bucket to_known to_known = true
same_bucket to_extra to_extra = true
same_bucket to_not_applicable to_not_applicable = true
same_bucket to_idmap to_idmap = true
same_bucket _ _ = false

file_in-get :
    (b : Buckets) (name value : Text) (into from : Bucket) (k : Text)
    → Dict.get (dict_of (file_in b name value into) from) k ≡ (
        if same_bucket into from && eq_text name k then some value else Dict.get (dict_of b from) k)
unfolding file_in
file_in-get b name value to_known to_known k = Dict.get-put b.known name k value
file_in-get b name value to_extra to_extra k = Dict.get-put b.extra name k value
file_in-get b name value to_not_applicable to_not_applicable k =
    Dict.get-put b.not_applicable name k value
file_in-get b name value to_idmap to_idmap k = Dict.get-put b.idmap name k value
file_in-get b name value to_known to_extra k = refl
file_in-get b name value to_known to_not_applicable k = refl
file_in-get b name value to_known to_idmap k = refl
file_in-get b name value to_extra to_known k = refl
file_in-get b name value to_extra to_not_applicable k = refl
file_in-get b name value to_extra to_idmap k = refl
file_in-get b name value to_not_applicable to_known k = refl
file_in-get b name value to_not_applicable to_extra k = refl
file_in-get b name value to_not_applicable to_idmap k = refl
file_in-get b name value to_idmap to_known k = refl
file_in-get b name value to_idmap to_extra k = refl
file_in-get b name value to_idmap to_not_applicable k = refl

step :
    (mode j k v : Text) (entries : Dict Text) (from : Bucket) (before : Option Text)
    → Dict.get entries j ≡ none
    → (if same_bucket (bucket_of mode k) from
        then or_before
            (Dict.get entries k)
            (if same_bucket (bucket_of mode j) from && eq_text j k then some v else before)
        else if same_bucket (bucket_of mode j) from && eq_text j k
        then some v
        else before)
      ≡ (if same_bucket (bucket_of mode k) from
          then or_before (if eq_text j k then some v else Dict.get entries k) before
          else before)
step mode j k v entries from before absent = elim (Bool-cases (eq_text j k)) [
  | inl same ↦
      let e = (eq_text_iff j k).0 same in rw (← e) (ground (arith, absent, eq_text_iff j j))
  | inr other ↦ ground arith
]

split_from-get :
    (mode : Text) (entries : Dict Text) (b : Buckets) (from : Bucket) (k : Text)
    → IsDict entries
    → Dict.get (dict_of (split_from mode b entries) from) k ≡ (
        if same_bucket (bucket_of mode k) from
        then or_before (Dict.get entries k) (Dict.get (dict_of b from) k)
        else Dict.get (dict_of b from) k)
unfolding split_from Dict.get
split_from-get mode [] b from k d = ground arith
split_from-get mode ((j, v) ∷ entries) b from k d =
    split_from-get mode entries (file_in b j v (bucket_of mode j)) from k d.1
    ∙ rw (file_in-get b j v (bucket_of mode j) from k)
        (step mode j k v entries from (Dict.get (dict_of b from) k) d.0)

empty_buckets :
    (from : Bucket) (k : Text)
    → Dict.get (dict_of (record { known = []; extra = []; not_applicable = []; idmap = [] }) from) k
      ≡ none
unfolding Dict.get
empty_buckets to_known k = refl
empty_buckets to_extra k = refl
empty_buckets to_not_applicable k = refl
empty_buckets to_idmap k = refl

-- Of options with no name twice, `split` loses and changes none: each is in exactly one of the four dictionaries, the
-- one that its name stands for on this kind of server, with its value, and nothing else is there.
pub split-get :
    (stored : Dict Text) (mode : Text) (from : Bucket) (k : Text)
    → IsDict stored
    → Dict.get (dict_of (split stored mode) from) k
      ≡ (if same_bucket (bucket_of mode k) from then Dict.get stored k else none)
unfolding split
split-get stored mode from k d =
    split_from-get mode stored (record { known = []; extra = []; not_applicable = []; idmap = [] })
      from k d
    ∙ rw (empty_buckets from k) (ground arith)
