-- ===== src/ErrorCodes.antt =====
-- Pixie-XC/ErrorCodes.h. (The values that BlkSocket.h and HttpSocket.h would define are guarded by
-- `#ifndef`, and socket_functions.hpp includes ErrorCodes.h first.)
use pixiecpp.Base.{ℤ, pos, negsuc}

abbrev pub socket_status_good : ℤ
socket_status_good = pos 0

-- -1001
abbrev pub socket_status_eof : ℤ
socket_status_eof = negsuc 1000

-- -1002
abbrev pub socket_status_error : ℤ
socket_status_error = negsuc 1001

-- -1003
abbrev pub socket_status_eagain : ℤ
socket_status_eagain = negsuc 1002

abbrev pub blk_read_status_ok : ℤ
blk_read_status_ok = pos 0

-- -2004
abbrev pub blk_read_status_eof : ℤ
blk_read_status_eof = negsuc 2003

-- -2005
abbrev pub blk_read_status_parse_error : ℤ
blk_read_status_parse_error = negsuc 2004

-- -2006
abbrev pub blk_read_status_ioerror : ℤ
blk_read_status_ioerror = negsuc 2005

abbrev pub blk_write_status_ok : ℤ
blk_write_status_ok = pos 0
