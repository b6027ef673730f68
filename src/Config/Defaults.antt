-- ===== src/Config/Defaults.antt =====
-- The defaults of the configuration do not undo themselves.
use etcdmonitor.Prelude.{◌≡◌, ◌≢◌, Result, ok, err, nat_eq, string_eq}
use etcdmonitor.Config.{Config, LoadError}

pub loaded : (r : Result LoadError Config) (x y : Config) → r ≡ ok x → r ≡ ok y → x ≡ y
loaded r x y p q = cc

pub not_loaded : (r : Result LoadError Config) (e : LoadError) (c : Config) → r ≡ err e → r ≢ ok c
not_loaded r e c p q = cc
