-- ===== src/Config/Collectors/Enabled.antt =====
-- The collectors that are put together.
use camblet.Base.{
  ◌≡◌, refl, sym, ap, subst, ◌∙◌, Bool, true, false, Bool-cases, Option-cases, List, [], ◌∷◌, All,
  Option, none, some, inl, inr, String, if◌then◌else◌,
}
use camblet.Base.Result.{Error, Result, ok, err, panics, ◌>>=◌, bind-ok_then, ok_inj}
use camblet.Base.Fallible.{Fallible}
use camblet.Tls.Types.{Bytes, Crypto}
use camblet.Config.Kubernetes.{pointer_to_bool, ClientOption, kubelet_options}
use camblet.Config.Collectors.{
  CollectorsConfig, Collector, sysfsdmi_collector, linuxos_collector, azure_collector,
  ec2_collector, gcp_collector, procfs_collector, docker_collector, kubernetes_collector,
  instantiate, accepted, instantiate_all, added, get_metadata_collector,
}

module _ (crypto : Crypto) (read_file : Bytes → Fallible Bytes) (cfg : CollectorsConfig) where
  -- A collector is enabled in the configuration, and has the options that it gives.
  abbrev pub IsEnabled : Collector → Type 0
  IsEnabled sysfsdmi_collector = pointer_to_bool cfg.sysfsdmi ≡ true
  IsEnabled linuxos_collector = pointer_to_bool cfg.linuxos ≡ true
  IsEnabled azure_collector = pointer_to_bool cfg.azure ≡ true
  IsEnabled ec2_collector = pointer_to_bool cfg.ec2 ≡ true
  IsEnabled gcp_collector = pointer_to_bool cfg.gcp ≡ true
  IsEnabled (procfs_collector envs) =
      (pointer_to_bool cfg.procfs.enabled ≡ true) × (envs ≡ pointer_to_bool cfg.procfs.extract_envs)
  IsEnabled (docker_collector path) =
      (pointer_to_bool cfg.docker.enabled ≡ true) × (path ≡ cfg.docker.socket_path)
  IsEnabled (kubernetes_collector opts) =
      (pointer_to_bool cfg.kubernetes.enabled ≡ true)
      × (kubelet_options crypto read_file cfg.kubernetes ≡ ok opts)

  -- A result that is a collector is one that is enabled.
  abbrev Gives : Result Collector → Type 0
  Gives result = (c : Collector) → result ≡ ok c → IsEnabled c

  instantiate-Gives :
      (enabled : Option Bool) (c : Collector)
      → (pointer_to_bool enabled ≡ true → IsEnabled c)
      → Gives (instantiate crypto read_file enabled c)
  instantiate-Gives enabled c h d e = elim (Bool-cases (pointer_to_bool enabled)) [
    | inl on ↦ rw (ok_inj c d (rw on at e)) at h on
    | inr off ↦ cc (rw off at e)
  ]

  accepted-ok :
      (accepts : Collector → Option Error) (c d : Collector)
      → accepted crypto read_file accepts c ≡ ok d
      → c ≡ d
  accepted-ok accepts c d h = elim (Option-cases (accepts c)) [
    | inl fine ↦ ok_inj c d (rw (fine, accepted) at h)
    | inr (e, refused) ↦ cc (rw (refused, accepted) at h)
  ]

  >>=-Gives :
      {A : Type 0} (m : Result A) (accepts : Collector → Option Error) (f : A → Collector)
      → ((a : A) → m ≡ ok a → IsEnabled (f a))
      → Gives (m >>= λ a. accepted crypto read_file accepts (f a))
  >>=-Gives m accepts f h d e =
      bind-ok_then m _ e λ a e_m e'. subst IsEnabled (accepted-ok accepts (f a) d e') (h a e_m)

  kubelet_options-enabled :
      (opts : List ClientOption)
      → kubelet_options crypto read_file cfg.kubernetes ≡ ok opts
      → pointer_to_bool cfg.kubernetes.enabled ≡ true
  unfolding kubelet_options
  kubelet_options-enabled opts h = elim (Bool-cases (pointer_to_bool cfg.kubernetes.enabled)) [
    | inl on ↦ on
    | inr off ↦ cc (rw off at h)
  ]

  All-Give :
      (accepts : Collector → Option Error)
      → All Gives (instantiate_all crypto read_file accepts cfg)
  All-Give accepts =
      let ec2 =
        >>=-Gives (instantiate crypto read_file cfg.ec2 ec2_collector) accepts (λ c. c)
          (instantiate-Gives cfg.ec2 ec2_collector (λ on. on)) in
      let docker = docker_collector cfg.docker.socket_path in
      let with_docker =
        >>=-Gives (instantiate crypto read_file cfg.docker.enabled docker) accepts (λ c. c)
          (instantiate-Gives cfg.docker.enabled docker (λ on. (on, refl))) in
      let kubernetes =
        >>=-Gives (kubelet_options crypto read_file cfg.kubernetes) accepts kubernetes_collector
          (λ opts e. (kubelet_options-enabled opts e, e)) in
      let procfs = procfs_collector (pointer_to_bool cfg.procfs.extract_envs) in
      (
        instantiate-Gives cfg.sysfsdmi sysfsdmi_collector (λ on. on),
        (
          instantiate-Gives cfg.procfs.enabled procfs (λ on. (on, refl)),
          (
            instantiate-Gives cfg.linuxos linuxos_collector (λ on. on),
            (
              instantiate-Gives cfg.azure azure_collector (λ on. on),
              (
                ec2,
                (
                  instantiate-Gives cfg.gcp gcp_collector (λ on. on),
                  (with_docker, (kubernetes, tt)),
                ),
              ),
            ),
          ),
        ),
      )

  added-All :
      (results : List (Result Collector)) (cs : List Collector)
      → All Gives results
      → added crypto read_file results ≡ ok cs
      → All IsEnabled cs
  added-All [] cs g h = subst (All IsEnabled) (ok_inj [] cs h) tt
  added-All (ok c ∷ results) cs (g, gs) h =
      bind-ok_then (added crypto read_file results) _ h λ found e h'.
        subst (All IsEnabled) (ok_inj (c ∷ found) cs h') (g c refl, added-All results found gs e)
  added-All (err e ∷ results) cs (g, gs) h = added-All results cs gs h
  added-All (camblet.Base.Result.panics ∷ results) cs g h = cc

  -- Each collector that is put together is enabled in the configuration, and has the options that
  -- the configuration gives.
  pub get_metadata_collector-IsEnabled :
      (accepts : Collector → Option Error) (cs : List Collector)
      → get_metadata_collector crypto read_file accepts cfg ≡ ok cs
      → All IsEnabled cs
  unfolding get_metadata_collector
  get_metadata_collector-IsEnabled accepts cs h =
      added-All (instantiate_all crypto read_file accepts cfg) cs (All-Give accepts) h
