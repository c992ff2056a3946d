-- ===== src/RouteRuntime/Publishing.antt =====
-- What a publication leaves behind: the table in memory and the Caddyfile on disk.
use zerobased.Base.{
  String, ◌≡◌, refl, ap, true, some, List, [], ◌∷◌, arith, ◌==◌, string_eq, if◌then◌else◌, All,
  Bool-cases, inl, inr, ◌⊎◌, ◌∙◌, false,
}
use zerobased.Base.Dict
use zerobased.Base.Dict.{Dict}
use zerobased.Base.Sorting.{insert_sorted, sort_strings, string_less}
use zerobased.Base.Text.{Unicode}
use zerobased.Controlplane.{Publication}
use zerobased.Zberr.Errors.{nil, is_nil}
use zerobased.Zberr.Errors.Laws.{is_nil-eq}
use zerobased.RouteRuntime.Machine.{Machine}
use zerobased.RouteRuntime.Validation.{validate_publication}
use zerobased.RouteRuntime.Render.{render_sites, render_caddyfile}
use zerobased.RouteRuntime.Caddy.{
  Runtime, copy_publications, runtime_host, install, publish, unpublish,
}

pub copy_publications_lem : (d : Dict Publication) → copy_publications d ≡ d
unfolding copy_publications
copy_publications_lem [] = refl
copy_publications_lem ((host, p) ∷ d) = ap (◌∷◌ (host, p)) (copy_publications_lem d)

module _ {κ} (P : String → Type κ) where
  insert_sorted-All :
      (s : String) (xs : List String) → P s → All P xs → All P (insert_sorted string_less s xs)
  unfolding insert_sorted
  insert_sorted-All s [] p h = (p, tt)
  insert_sorted-All s (x ∷ xs) p h = ground (arith, insert_sorted-All s xs p h.1)

  sort_strings-All : (xs : List String) → All P xs → All P (sort_strings xs)
  unfolding sort_strings
  sort_strings-All [] h = tt
  sort_strings-All (x ∷ xs) h = insert_sorted-All x (sort_strings xs) h.0 (sort_strings-All xs h.1)

abbrev Known : Dict Publication → String → Type 0
Known d host = (p : Publication) × (Dict.lookup host d ≡ some p)

Known-cons :
    (j : String) (v : Publication) (d : Dict Publication) (hosts : List String)
    → All (Known d) hosts
    → All (Known ((j, v) ∷ d)) hosts
unfolding Dict.lookup
Known-cons j v d [] k = tt
Known-cons j v d (host ∷ hosts) ((p, e), k) = (
  elim (Bool-cases (j == host)) [ inl same ↦ (v, rw same) | inr other ↦ (p, rw other e) ],
  Known-cons j v d hosts k,
)

keys-Known : (d : Dict Publication) → All (Known d) (Dict.keys d)
unfolding Dict.keys Dict.lookup
keys-Known [] = tt
keys-Known ((j, v) ∷ d) = ((v, ground arith), Known-cons j v d (Dict.keys d) (keys-Known d))

module _ ⦃t : Unicode⦄ where
  -- A publication with its host in canonical form.
  abbrev pub addressed : Publication → Publication
  addressed p = record p { host = runtime_host p.host }

  -- Each publication of a table stands under its own host and passes the validation.
  abbrev pub Checked : String → Publication → Type 0
  Checked host p = (p.host ≡ host) × (validate_publication p ≡ nil)

  pub record IsValidTable (d : Dict Publication) : Type 0 where
    pub nodup : Dict.NodupKeys d
    pub checked : Dict.Entries Checked d

  render_sites_total :
      (hosts : List String) (d : Dict Publication) (upstream : String) (text : String)
      → IsValidTable d
      → All (Known d) hosts
      → (render_sites hosts d upstream text).1 ≡ nil
  unfolding render_sites
  render_sites_total [] d upstream text v k = refl
  render_sites_total (host ∷ hosts) d upstream text v ((p, e), k) =
      let ok = (Dict.lookup-Entries Checked host p d v.checked e).1 in
      rw (e, ok) (render_sites_total hosts d upstream _ v k)

  -- The Caddyfile of a valid table is written without an error.
  pub render_caddyfile_total :
      (d : Dict Publication) (upstream : String)
      → IsValidTable d
      → (render_caddyfile d upstream).1 ≡ nil
  unfolding render_caddyfile
  render_caddyfile_total d upstream v =
      render_sites_total (sort_strings (Dict.keys d)) d upstream _ v
        (sort_strings-All (Known d) (Dict.keys d) (keys-Known d))

  pub insert-IsValidTable :
      (p : Publication) (d : Dict Publication)
      → validate_publication p ≡ nil
      → IsValidTable d
      → IsValidTable (Dict.insert p.host p d)
  insert-IsValidTable p d e v = record {
    nodup = Dict.insert-NodupKeys p.host p d v.nodup;
    checked = Dict.insert-Entries Checked p.host p d (refl, e) v.checked;
  }

  pub erase-IsValidTable :
      (host : String) (d : Dict Publication) → IsValidTable d → IsValidTable (Dict.erase host d)
  erase-IsValidTable host d v = record {
    nodup = Dict.erase-NodupKeys host d v.nodup;
    checked = Dict.erase-Entries Checked host d v.checked;
  }

module _ ⦃t : Unicode⦄ (M : Machine) where
  abbrev table : Runtime M → Dict Publication
  table r = r.caddy.publications

  -- `install` answers nil exactly when it has put the next table into force; nothing else of the
  -- runtime's fields changes, and after an error the table is the one before.
  install-table :
      (next : Dict Publication) (r : Runtime M)
      → (install M next r).1.caddy
        ≡ (if is_nil (install M next r).0 then record r.caddy { publications = next } else r.caddy)
  unfolding install
  install-table next r = ground arith

  pub publish-caddy :
      (p : Publication) (r : Runtime M)
      → (publish M p r).1.caddy ≡ (
          if is_nil (publish M p r).0
          then record r.caddy {
            publications = Dict.insert (addressed p).host (addressed p) (table r);
          }
          else r.caddy)
  unfolding publish
  publish-caddy p r =
      rw (copy_publications_lem (table r), publish)
        (ground (arith, install-table (Dict.insert (addressed p).host (addressed p) (table r)) r))

  -- A publication that is answered with nil has passed the validation, with its host in canonical form, and
  -- stands in the table under that host, beside what was there; after any error the runtime's fields are as
  -- before.
  pub publish-table :
      (p : Publication) (r : Runtime M)
      → ((is_nil (publish M p r).0 ≡ true)
          × (validate_publication (addressed p) ≡ nil)
          × ((publish M p r).1.caddy ≡ record r.caddy {
            publications = Dict.insert (addressed p).host (addressed p) (table r);
          }))
        ⊎ ((is_nil (publish M p r).0 ≡ false) × ((publish M p r).1.caddy ≡ r.caddy))
  unfolding publish
  publish-table p r = elim (Bool-cases (is_nil (publish M p r).0)) [
    | inl done ↦ inl (done, is_nil-eq _ (ground arith), publish-caddy p r ∙ rw done)
    | inr failed ↦ inr (failed, publish-caddy p r ∙ rw failed)
  ]

  pub unpublish-table :
      (p : Publication) (r : Runtime M)
      → (unpublish M p r).1.caddy ≡ (
          if is_nil (unpublish M p r).0
          then record r.caddy { publications = Dict.erase (runtime_host p.host) (table r) }
          else r.caddy)
  unfolding unpublish
  unpublish-table p r = rw (copy_publications_lem (table r), unpublish) (install-table _ r)
