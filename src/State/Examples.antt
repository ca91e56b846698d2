-- ===== src/State/Examples.antt =====
-- Keys of the file store.
use infrastructure.Prelude.{◌≡◌, refl, ok}
use infrastructure.State.{resolve, split, clean, join}
use infrastructure.State.Paths.{IsConfined, resolve-IsConfined}

escaping : resolve "Secret/../../etc/./shadow" ≡ ok "etc/shadow"
unfolding resolve split clean join
escaping = refl

resolve_example : IsConfined "etc/shadow"
resolve_example = resolve-IsConfined "Secret/../../etc/./shadow" "etc/shadow" escaping
