-- ===== src/Srv/ShareConf/Validate/Partition.antt =====
-- `split` sorts the stored options of a share.
use samfscon.Prelude.{
  Option, none, some, [], ◌∷◌, ◌≡◌, ◌∙◌, if◌then◌else◌, arith, ◌||◌, ◌&&◌, not, Bool-cases, inl,
  inr,
}
use samfscon.Prelude.Text.{Text, eq_text, eq_text_iff}
use samfscon.Prelude.Dict
use samfscon.Prelude.Dict.{or_before, Dict, IsDict}
use samfscon.Srv.ShareConf.Catalogue.{is_srvsvc_owned}
use samfscon.Srv.ShareConf.Validate.{ShareOptions, is_catalogued, split_step, split_from, split}

module _ (j k v : Text) (entries : Dict Text) (before : Option Text)
    (absent : Dict.get entries j ≡ none) where
  known_step :
      (if is_catalogued k
        then or_before
            (Dict.get entries k)
            (if is_catalogued k && eq_text j k then some v else before)
        else if is_catalogued k && eq_text j k
        then some v
        else before)
      ≡ (if is_catalogued k
          then or_before (if eq_text j k then some v else Dict.get entries k) before
          else before)
  known_step = elim (Bool-cases (eq_text j k)) [
    | inl same ↦
        let e = (eq_text_iff j k).0 same in rw (← e) (ground (arith, absent, eq_text_iff j j))
    | inr other ↦ ground arith
  ]

  extra_step :
      (if is_catalogued k || is_srvsvc_owned k
        then if not (is_catalogued k || is_srvsvc_owned k) && eq_text j k then some v else before
        else or_before
            (Dict.get entries k)
            (if not (is_catalogued k || is_srvsvc_owned k) && eq_text j k then some v else before))
      ≡ (if is_catalogued k || is_srvsvc_owned k
          then before
          else or_before (if eq_text j k then some v else Dict.get entries k) before)
  extra_step = elim (Bool-cases (eq_text j k)) [
    | inl same ↦
        let e = (eq_text_iff j k).0 same in rw (← e) (ground (arith, absent, eq_text_iff j j))
    | inr other ↦ ground arith
  ]

module _ (r : ShareOptions) (j k v : Text) where
  split_step-known :
      Dict.get (split_step r j v).known k
      ≡ (if is_catalogued k && eq_text j k then some v else Dict.get r.known k)
  unfolding split_step
  split_step-known = elim (Bool-cases (eq_text j k)) [
    | inl same ↦
        let e = (eq_text_iff j k).0 same in
        rw (← e) (ground (arith, Dict.get-put r.known j j v, eq_text_iff j j))
    | inr other ↦ ground (arith, Dict.get-put r.known j k v)
  ]

  split_step-extra : Dict.get (split_step r j v).extra k ≡ (
      if not (is_catalogued k || is_srvsvc_owned k) && eq_text j k
      then some v
      else Dict.get r.extra k)
  unfolding split_step
  split_step-extra = elim (Bool-cases (eq_text j k)) [
    | inl same ↦
        let e = (eq_text_iff j k).0 same in
        rw (← e) (ground (arith, Dict.get-put r.extra j j v, eq_text_iff j j))
    | inr other ↦ ground (arith, Dict.get-put r.extra j k v)
  ]

split_from-known :
    (entries : Dict Text) (r : ShareOptions) (k : Text)
    → IsDict entries
    → Dict.get (split_from r entries).known k ≡ (
        if is_catalogued k
        then or_before (Dict.get entries k) (Dict.get r.known k)
        else Dict.get r.known k)
unfolding split_from Dict.get
split_from-known [] r k d = ground arith
split_from-known ((j, v) ∷ entries) r k d =
    split_from-known entries (split_step r j v) k d.1
    ∙ rw (split_step-known r j k v) (known_step j k v entries (Dict.get r.known k) d.0)

split_from-extra :
    (entries : Dict Text) (r : ShareOptions) (k : Text)
    → IsDict entries
    → Dict.get (split_from r entries).extra k ≡ (
        if is_catalogued k || is_srvsvc_owned k
        then Dict.get r.extra k
        else or_before (Dict.get entries k) (Dict.get r.extra k))
unfolding split_from Dict.get
split_from-extra [] r k d = ground arith
split_from-extra ((j, v) ∷ entries) r k d =
    split_from-extra entries (split_step r j v) k d.1
    ∙ rw (split_step-extra r j k v) (extra_step j k v entries (Dict.get r.extra k) d.0)

-- Of options with no name twice, `split` loses and changes nothing but `path` and `comment`: a stored option of the catalogue is
-- known with its value and not extra, any other but those two is extra with its value and not known.
pub split_lem :
    (entries : Dict Text) (k : Text)
    → IsDict entries
    → (Dict.get (split entries).known k ≡ (if is_catalogued k then Dict.get entries k else none))
      × (Dict.get (split entries).extra k
          ≡ (if is_catalogued k || is_srvsvc_owned k then none else Dict.get entries k))
unfolding split
split_lem entries k d =
    let a = split_from-known entries (record { known = []; extra = [] }) k d in
    let b = split_from-extra entries (record { known = []; extra = [] }) k d in
    (a ∙ unfold Dict.get in ground arith, b ∙ unfold Dict.get in ground arith)
