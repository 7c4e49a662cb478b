-- ===== src/Prog/Link/RoundTrip.antt =====
-- The serialised form of a link, written and read.
use bpfilter.Prelude.{
  ℕ, ◌^◌, ◌<◌, ◌≡◌, ap, sym, Option, List, [], ◌∷◌, none, some, length, append_assoc, append-nil,
}
use bpfilter.Result.{ok, ◌>>=◌}
use bpfilter.Bytes.{le, At}
use bpfilter.Marsh.{marsh_new}
use bpfilter.Marsh.Children.{
  enc, children, add_child_raw-marsh_new, Visits-start, require_child-Visits, load-child,
  field-Visits, next_child-Visits_nil,
}
use bpfilter.Prog.{System}
use bpfilter.Prog.Map.RoundTrip.{IsPinned}
use bpfilter.Prog.Link.{Link, pinned_fd, link_new_from_marsh, link_marsh}

-- The hook fits its type, and the link is pinned with its descriptor.
pub record IsValid (sys : System) (dir_fd : ℕ) (link : Link) : Type 0 where
  pub hook_fits : link.hook < 2 ^ 32
  pub descriptor : ℕ
  pub has_fd : link.fd ≡ some descriptor
  pub pinned : IsPinned sys dir_fd descriptor link.name

pub link_bytes : Link → List ℕ
link_bytes link = children (link.name ∷ le 4 link.hook ∷ [])

pub link_marsh_lem : (link : Link) → link_marsh link ≡ marsh_new (link_bytes link)
unfolding link_marsh link_bytes
link_marsh_lem link = simp (add_child_raw-marsh_new, append_assoc, append-nil)

same_but_fd : (link : Link) (fd : Option ℕ) → fd ≡ link.fd → record link { fd = fd } ≡ link
same_but_fd link fd e = λ i. record link { fd = e i }

module _ (b : List ℕ) (fits : length b < 2 ^ 64) (sys : System) (dir_fd : ℕ) where
  pub link_new_from_marsh-At :
      (c : ℕ) (link : Link)
      → IsValid sys dir_fd link
      → At b c (enc (link_bytes link))
      → link_new_from_marsh sys (some dir_fd) b c ≡ ok link
  unfolding link_new_from_marsh link_bytes
  link_new_from_marsh-At c link v a =
      let p = v.pinned in
      require_child-Visits b fits c none _ _ _ _
        (Visits-start b fits c (link.name ∷ le 4 link.hook ∷ []) a)
        λ c₁ a₁ v₁.
          rw (rw p.name_fits at (load-child b fits c₁ link.name a₁), ◌>>=◌)
            (field-Visits b fits c (some c₁) 4 link.hook _ _ _ v.hook_fits v₁ λ c₂ v₂.
              rw
                (
                  next_child-Visits_nil b fits c (some c₂) v₂,
                  pinned_fd,
                  p.is_string,
                  ◌>>=◌,
                  p.found,
                  ◌>>=◌,
                )
                (ap ok (same_but_fd link _ (sym v.has_fd))))
