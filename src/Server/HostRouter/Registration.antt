-- ===== src/Server/HostRouter/Registration.antt =====
-- What `host` and `fallback` build.
use modo.Base.{
  ◌≡◌, refl, ap, sym, ◌∙◌, subst, true, false, [], ◌∷◌, ◌++◌, Option, none, some, arith, nat_eq,
}
use modo.Base.Lists.{list_eq, list_beq_iff}
use modo.Base.Text.{Text, is_empty, strip_prefix, starts_with, contains_char, to_lowercase, trim}
use modo.Base.Dict.{lookup, insert, IsDict, lookup-insert, IsDict-insert}
use modo.Server.HostRouter.{
  HostRouter, exactly, wildcard, strip_port, star_dot, new, host, host_by, with_fallback,
  match_host,
}
use modo.Server.HostRouter.Matching.{IsUnder, Serves-unique, by_name, by_suffix}

module _ {Router : Type 0} where
  -- Each wildcard is kept with its own pattern under a suffix that has a dot, and no exact host is
  -- empty or begins with a star. No host is registered twice.
  pub record IsValid (r : HostRouter Router) : Type 0 where
    pub exact_dict : IsDict r.exact
    pub wildcard_dict : IsDict r.wildcard
    pub patterns :
        (suffix pattern : Text) (router : Router)
        → lookup suffix r.wildcard ≡ some (pattern, router)
        → (pattern ≡ star_dot ++ suffix) × (contains_char b'.' suffix ≡ true)
    pub exacts :
        (name : Text) (router : Router)
        → lookup name r.exact ≡ some router
        → (is_empty name ≡ false) × (starts_with (b'*' ∷ []) name ≡ false)

  -- The empty router is well formed.
  pub new-IsValid : IsValid new
  unfolding lookup
  new-IsValid = record {
    exact_dict = tt;
    wildcard_dict = tt;
    patterns = λ s p r h. cc;
    exacts = λ n r h. cc;
  }

  -- The two ways in which a pattern is accepted.
  data Added (r r' : HostRouter Router) (router : Router) : Option Text → Text → Type 0 where
    as_exact :
        {name : Text}
        → is_empty name ≡ false
        → starts_with (b'*' ∷ []) name ≡ false
        → r' ≡ record r { exact = insert name router r.exact }
        → Added r r' router none name
    as_wildcard :
        {suffix name : Text}
        → contains_char b'.' suffix ≡ true
        → r' ≡ record r { wildcard = insert suffix (star_dot ++ suffix, router) r.wildcard }
        → Added r r' router (some suffix) name

  host_by-Added :
      (o : Option Text) (name : Text) (router : Router) (r r' : HostRouter Router)
      → host_by o name router r ≡ some r'
      → Added r r' router o name
  host_by-Added none name router r r' h = as_exact (ground arith) (ground arith) (ground arith)
  host_by-Added (some suffix) name router r r' h = as_wildcard (ground arith) (ground arith)

  Added-IsValid :
      {r r' : HostRouter Router} {router : Router} {o : Option Text} {name : Text}
      → Added r r' router o name
      → IsValid r
      → IsValid r'
  Added-IsValid {r} {router} (as_exact {name} full no_star e) v = subst IsValid (sym e) (record {
    exact_dict = IsDict-insert name router r.exact v.exact_dict;
    wildcard_dict = v.wildcard_dict;
    patterns = v.patterns;
    exacts = λ n q h.
        ground (arith, lookup-insert name n router r.exact, list_beq_iff name n, v.exacts n q);
  })
  Added-IsValid {r} {router} (as_wildcard {suffix} dotted e) v = subst IsValid (sym e) (record {
    exact_dict = v.exact_dict;
    wildcard_dict = IsDict-insert suffix (star_dot ++ suffix, router) r.wildcard v.wildcard_dict;
    patterns = λ s p q h. ground (
      arith,
      lookup-insert suffix s (star_dot ++ suffix, router) r.wildcard,
      list_beq_iff suffix s,
      v.patterns s p q,
    );
    exacts = v.exacts;
  })

  -- A registration that a well-formed router accepts gives a well-formed router, and it stays so when a
  -- fallback is added.
  pub host-IsValid :
      (pattern : Text) (router : Router) (r r' : HostRouter Router)
      → IsValid r
      → host pattern router r ≡ some r'
      → IsValid r' × IsValid (with_fallback router r')
  unfolding host with_fallback
  host-IsValid pattern router r r' v h =
      let name : Text = to_lowercase (strip_port (trim pattern)) in
      let v' : IsValid r' =
        Added-IsValid (host_by-Added (strip_prefix star_dot name) name router r r' h) v in
      (
        v',
        record {
          exact_dict = v'.exact_dict;
          wildcard_dict = v'.wildcard_dict;
          patterns = v'.patterns;
          exacts = v'.exacts;
        },
      )

  Added-exact :
      {r r' : HostRouter Router} {router : Router} {o : Option Text} {name : Text}
      → o ≡ none
      → Added r r' router o name
      → lookup name r'.exact ≡ some router
  Added-exact {r} {router} n (as_exact {name} full no_star e) =
      rw e (lookup-insert name name router r.exact ∙ rw ((list_beq_iff name name).1 refl))
  Added-exact n (as_wildcard dotted e) = cc

  Added-wildcard :
      {r r' : HostRouter Router} {router : Router} {o : Option Text} {name : Text} (suffix : Text)
      → o ≡ some suffix
      → Added r r' router o name
      → (lookup suffix r'.wildcard ≡ some (star_dot ++ suffix, router)) × (r'.exact ≡ r.exact)
  Added-wildcard suffix n (as_exact full no_star e) = cc
  Added-wildcard {r} {router} suffix n (as_wildcard {suffix = s} dotted e) =
      let same : suffix ≡ s = cc in
      rw (same, e)
        (
          lookup-insert s s (star_dot ++ s, router) r.wildcard ∙ rw ((list_beq_iff s s).1 refl),
          refl,
        )

  -- After the registration of a pattern without a star, the host that it names, in lower case and without
  -- a port, is answered with its router.
  pub match_host-host :
      (pattern : Text) (router : Router) (r r' : HostRouter Router)
      → host pattern router r ≡ some r'
      → strip_prefix star_dot (to_lowercase (strip_port (trim pattern))) ≡ none
      → match_host (to_lowercase (strip_port (trim pattern))) r' ≡ exactly router
  unfolding host
  match_host-host pattern router r r' h plain =
      Serves-unique r' _ (by_name (Added-exact plain (host_by-Added _ _ router r r' h)))

  -- After the registration of a pattern with a star, each host with one label in front of its suffix is
  -- answered with its router, that label and the pattern, unless the host is registered by name.
  pub match_host-host_wildcard :
      (pattern suffix : Text) (router : Router) (r r' : HostRouter Router) (name subdomain : Text)
      → host pattern router r ≡ some r'
      → strip_prefix star_dot (to_lowercase (strip_port (trim pattern))) ≡ some suffix
      → lookup name r.exact ≡ none
      → IsUnder name subdomain suffix
      → match_host name r' ≡ wildcard router subdomain (star_dot ++ suffix)
  unfolding host
  match_host-host_wildcard pattern suffix router r r' name subdomain h starred absent under =
      let (found, same) = Added-wildcard suffix starred (host_by-Added _ _ router r r' h) in
      Serves-unique r' name (by_suffix (ap (lookup name) same ∙ absent) under found)
