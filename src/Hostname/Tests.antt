-- ===== src/Hostname/Tests.antt =====
-- Rows of the table in internal/hostname/hostname_test.go, and the theorems at concrete names.
use vcluster_private_cloud_c.Prelude.{◌≡◌, refl, ◌↔◌, Bool, true, false, [], ◌∷◌, Text, codes, ◌==◌}
use vcluster_private_cloud_c.Go.{Unicode, contains, cut_prefix, index_byte}
use vcluster_private_cloud_c.Hostname.{allowed, canonical}
use vcluster_private_cloud_c.Hostname.Grants.{Authorized, allowed_iff}

-- Tables that leave every character above 127 alone.
abbrev plain : Unicode
plain = record { lower = λ c. c; space = λ c. false }

abbrev check : Text → Text → Bool
check h p = allowed plain h (p ∷ [])

table :
    (check (codes "app.example.com") (codes "APP.Example.com.") ≡ true)
    × (check (codes "x.a.example.com") (codes "*.a.example.com") ≡ true)
    × (check (codes "x.y.a.example.com") (codes "*.a.example.com") ≡ false)
    × (check (codes "a.example.com") (codes "*.a.example.com") ≡ false)
    × (check (codes "x.aa.example.com") (codes "*.a.example.com") ≡ false)
    × (check (codes "*.a.example.com") (codes "*.example.com") ≡ false)
    × (check (codes "   ") (codes "*.example.com") ≡ false)
    × (check (codes "app.example.com") (codes "*.") ≡ false)
unfolding allowed canonical contains cut_prefix index_byte ◌==◌
table = (refl, refl, refl, refl, refl, refl, refl, refl)

allowed_iff_example :
    (allowed plain (codes "x.b.c") (codes "*.b.c" ∷ []) ≡ true)
    ↔ Authorized plain (codes "x.b.c") (codes "*.b.c" ∷ [])
allowed_iff_example = allowed_iff plain (codes "x.b.c") (codes "*.b.c" ∷ [])
