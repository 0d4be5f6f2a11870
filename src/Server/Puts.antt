-- ===== src/Server/Puts.antt =====
-- Where the response to a PUT request goes: src/ldc.cpp with the flows of src/connection.h.
use twig_kv.Server.State.{Server}
use twig_kv.Connection.{Connection}
use twig_kv.Connection as Connection
