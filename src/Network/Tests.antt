-- ===== src/Network/Tests.antt =====
-- Runs of the buffered connection.
use muxcore.Common.{[]}
use muxcore.Common.Keys.{string_key, number_key}
use muxcore.Network.{BufferedConn, new_buffered_conn}

abbrev idle : BufferedConn
idle = new_buffered_conn [] 16
