-- ===== src/Checks/Samples.antt =====
-- A record's headers, shared by the tests.
use telemetrics_client.Base.{List, ◌++◌, map, arith}
use telemetrics_client.Base.Bytes.{Bytes, codes, is_prefix}
use telemetrics_client.Common.{header_names}
use telemetrics_client.Record.Lines.{AreHeaders}

-- Each header is its name and a short value.
unfoldable pub texts : List Bytes
texts = map (λ name. name ++ codes ": x") header_names

pub texts-AreHeaders : AreHeaders header_names texts
unfolding texts header_names is_prefix
texts-AreHeaders = ground arith
